-- ===== src/Text.antt =====
-- ExpandableString.c, and the same functions inline in include/nativehelper/JNIHelp.h: a string in a
-- block of the heap that grows by realloc.
pub mod Abstract
pub mod Contents
pub mod Refinement
use platform_libnativehelper.Base.{
  >>=-returned, bind_returned, some_not_none, if_true, if_false, IsReturned, aborted≢returned,
  returned_injective, crashed, same_string, same_string_sound, Outcome, aborted, returned, ◌>>=◌, ℕ,
  zero, suc, ◌+◌, ◌-◌, ◌*◌, ◌/◌, ◌%◌, ◌^◌, ◌≤◌, ◌<◌, ◌≡◌, refl, sym, ap, ap₂, ◌∙◌, subst, fun_ext,
  ◌≢◌, ◌↔◌, ◌⊎◌, inl, inr, Bool, true, false, not, ◌&&◌, ◌||◌, Option, none, some, List, [], ◌∷◌,
  ◌++◌, map, append_assoc, append-nil, arith, ltb, leb, ◌==◌, if◌then◌else◌, ==_iff, Bool-cases,
  and_left, and_right, and_intro, false≢true, Option-cases, String, codes, length, take, drop,
  get_elem?, length-append, take-append, drop-append, take_all, All, All-append,
}

-- A block is an address with its bytes. `none` is NULL.
pub record ExpandableString : Type 0 where
  pub data_size : ℕ
  pub chars : Option (List ℕ)

-- The allocator: whether the call of realloc that gets a size succeeds, after the sizes asked for
-- before, newest first. A block that is new or has grown ends in bytes of any value.
pub record Allocator : Type 0 where
  pub grants : List ℕ → ℕ → Bool
  pub fill : List ℕ → ℕ → List ℕ

pub record State : Type 0 where
  pub string : ExpandableString
  pub asked : List ℕ

abbrev pub size_max : ℕ
size_max = 2 ^ 64

unfoldable pub initialize : State → State
initialize s = record s { string = record { data_size = 0; chars = none } }

unfoldable pub release : State → State
release s = record s { string = record { data_size = 0; chars = none } }

-- The bytes of the block before realloc.
unfoldable pub bytes : Option (List ℕ) → List ℕ
bytes none = []
bytes (some block) = block

-- realloc to a size: the old bytes as far as they fit, then bytes of the allocator.
unfoldable pub realloc : Allocator → List ℕ → Option (List ℕ) → ℕ → Option (List ℕ)
realloc a asked chars size =
    if a.grants asked size then some (take size (bytes chars ++ a.fill asked size)) else none

-- memcpy of some bytes to an offset of a block; one out of bounds is `none`.
unfoldable pub memcpy : List ℕ → ℕ → List ℕ → Option (List ℕ)
memcpy block offset source =
    if leb (offset + length source) (length block)
    then some (take offset block ++ source ++ drop (offset + length source) block)
    else none

unfoldable pub required_size : ExpandableString → List ℕ → ℕ
required_size e text = (((e.data_size + length text) % size_max) + 1) % size_max

-- The string after memcpy; `crashed` is a write out of bounds.
unfoldable pub stored :
    ExpandableString → List ℕ → List ℕ → Option (List ℕ) → Outcome (Bool × State)
stored e text asked none = crashed
stored e text asked (some block) = returned (
  true,
  record {
    string = record { data_size = (e.data_size + length text) % size_max; chars = some block };
    asked = asked;
  },
)

-- The copy of the text with its NUL behind what the new block holds, if there is one.
unfoldable pub grown : State → List ℕ → ℕ → Option (List ℕ) → Outcome (Bool × State)
grown s text size none = returned (false, record s { asked = size ∷ s.asked })
grown s text size (some block) =
    stored s.string text (size ∷ s.asked) (memcpy block s.string.data_size (text ++ (0 ∷ [])))

unfoldable pub append : Allocator → State → List ℕ → Outcome (Bool × State)
append a s text =
    grown s text (required_size s.string text)
      (realloc a s.asked s.string.chars (required_size s.string text))

unfoldable pub assign : Allocator → State → List ℕ → Outcome (Bool × State)
assign a s text = append a (release s) text
