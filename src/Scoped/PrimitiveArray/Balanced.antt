-- ===== src/Scoped/PrimitiveArray/Balanced.antt =====
-- scoped_primitive_array.h: what a holder acquires it gives back, once and with its mode.
use platform_libnativehelper.Base.{
  if_true, if_false, ℕ, ◌≡◌, refl, sym, ap, subst, ◌⊎◌, inl, inr, false, Option, none, some, List,
  [], ◌∷◌, ◌++◌, map, leb, Bool-cases, length, take, take_all,
}
use platform_libnativehelper.Scoped.PrimitiveArray.{
  construct_rw, destroy_ro, Arrays, ReleaseMode, construct_ro, destroy_rw, Log, reset_ro, reset_rw,
  get_ro, buffer_size, jni_abort, ArrayRo, own_buffer, copy_back, with_acquired, raw_of,
}

-- From a log to a later one, the addresses acquired are exactly those given back, for one array and
-- with one mode, and no exception was thrown.
pub record IsBalanced (mode : ReleaseMode) (array : ℕ) (g h : Log) : Type 0 where
  pub new : List ℕ
  pub taken : h.acquired ≡ new ++ g.acquired
  pub returned_all : h.given_back ≡ map (λ a. (array, a, mode)) new ++ g.given_back
  pub no_exception : h.null_pointer_exceptions ≡ g.null_pointer_exceptions

-- What a holder that reads comes to: its pointer and its end.
IsRead : Arrays → ℕ → Log → ArrayRo × Log → Type 0
IsRead v array g r =
    IsBalanced jni_abort array g (destroy_ro r)
    × (r.0.size ≡ length (v.elements array))
    × ((get_ro v r.0 ≡ some (v.elements array))
        ⊎ ((get_ro v r.0 ≡ none)
            × (v.address g.acquired array ≡ none)
            × (leb (length (v.elements array)) buffer_size ≡ false)))

acquired-IsRead :
    (v : Arrays) (array : ℕ) (g : Log) (o : Option ℕ)
    → v.address g.acquired array ≡ o
    → leb (length (v.elements array)) buffer_size ≡ false
    → IsRead v array g (
      record {
        java_array = some array;
        raw_array = raw_of o;
        size = length (v.elements array);
        buffer = [];
      },
      with_acquired o g,
    )
unfolding IsRead destroy_ro get_ro
acquired-IsRead v array g none e l = (
  record { new = []; taken = refl; returned_all = refl; no_exception = refl },
  refl,
  inr (refl, e, l),
)
acquired-IsRead v array g (some a) e l = (
  record { new = a ∷ []; taken = refl; returned_all = refl; no_exception = refl },
  refl,
  inl refl,
)

buffered-IsRead :
    (v : Arrays) (array : ℕ) (g : Log)
    → IsRead v array g (
      record {
        java_array = some array;
        raw_array = own_buffer;
        size = length (v.elements array);
        buffer = take (length (v.elements array)) (v.elements array);
      },
      g,
    )
unfolding IsRead destroy_ro get_ro
buffered-IsRead v array g = (
  record { new = []; taken = refl; returned_all = refl; no_exception = refl },
  refl,
  inl (ap some (take_all (v.elements array))),
)

-- A holder that reads an array, from its constructor to its destructor, gives back with JNI_ABORT
-- exactly the elements that it acquired; its size is that of the array, and get points to the
-- elements of the array, through its buffer or not, unless the array is larger than the buffer and
-- GetArrayElements gave NULL, where get is nullptr.
pub construct_ro-destroy_ro :
    (v : Arrays) (array : ℕ) (g : Log)
    → IsBalanced jni_abort array g (destroy_ro (construct_ro v (some array) g))
      × ((construct_ro v (some array) g).0.size ≡ length (v.elements array))
      × ((get_ro v ((construct_ro v (some array) g).0) ≡ some (v.elements array))
          ⊎ ((get_ro v ((construct_ro v (some array) g).0) ≡ none)
              × (v.address g.acquired array ≡ none)
              × (leb (length (v.elements array)) buffer_size ≡ false)))
unfolding construct_ro reset_ro IsRead
construct_ro-destroy_ro v array g =
    elim (Bool-cases (leb (length (v.elements array)) buffer_size)) [
      | inl b ↦ subst (IsRead v array g) (sym (if_true _ _ _ b)) (buffered-IsRead v array g)
      | inr b ↦
          subst (IsRead v array g) (sym (if_false _ _ _ b))
            (acquired-IsRead v array g (v.address g.acquired array) refl b)
    ]

written-IsBalanced :
    (v : Arrays) (array : ℕ) (g : Log) (o : Option ℕ)
    → IsBalanced copy_back array g
        (destroy_rw (record { rw_java_array = some array; rw_raw_array = o }, with_acquired o g))
unfolding destroy_rw
written-IsBalanced v array g none = record {
  new = [];
  taken = refl;
  returned_all = refl;
  no_exception = refl;
}
written-IsBalanced v array g (some a) = record {
  new = a ∷ [];
  taken = refl;
  returned_all = refl;
  no_exception = refl;
}

-- A holder that reads and writes an array, from its constructor to its destructor, gives back with
-- the mode 0, which copies back, exactly the elements that it acquired; and its pointer is the one
-- that GetArrayElements gave.
construct_rw-destroy_rw :
    (v : Arrays) (array : ℕ) (g : Log)
    → IsBalanced copy_back array g (destroy_rw (construct_rw v (some array) g))
      × ((construct_rw v (some array) g).0.rw_raw_array ≡ v.address g.acquired array)
unfolding construct_rw reset_rw
construct_rw-destroy_rw v array g =
    (written-IsBalanced v array g (v.address g.acquired array), refl)
