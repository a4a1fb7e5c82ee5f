-- ===== src/Scoped/LocalFrame.antt =====
-- scoped_local_frame.h: a holder of a frame of local references. The environment has the frames, the
-- innermost first, each with its references.
use platform_libnativehelper.Base.{
  if_false, ℕ, ◌≡◌, refl, sym, ap, ap₂, ◌∙◌, Bool, true, false, ◌||◌, Option, none, some, List, [],
  ◌∷◌, map, ◌==◌, false≢true, drop, All,
}
use platform_libnativehelper.Jni.{remove, is_live}

pub record Frames : Type 0 where
  pub frames : List (List ℕ)
  pub pending : Option ℕ

-- The constructor, by the answer of PushLocalFrame: JNI_OK, or an exception and no frame. The answer
-- is not looked at.
unfoldable pub construct : Option ℕ → Frames → Frames
construct none s = record s { frames = [] ∷ s.frames }
construct (some x) s = record s { pending = some x }

-- The destructor, PopLocalFrame.
unfoldable pub destroy : Frames → Frames
destroy s = record s { frames = drop 1 s.frames }

-- What the code between does: a reference is made in the innermost frame, or one is deleted.
pub data LocalStep : Type 0 where
  made : ℕ → LocalStep
  deleted : ℕ → LocalStep

abbrev pub made_in : ℕ → List (List ℕ) → List (List ℕ)
made_in h [] = []
made_in h (top ∷ outer) = (h ∷ top) ∷ outer

abbrev pub run : List LocalStep → Frames → Frames
run [] s = s
run (made h ∷ steps) s = run steps (record s { frames = made_in h s.frames })
run (deleted h ∷ steps) s = run steps (record s { frames = map (remove h) s.frames })

-- No reference of these frames is deleted.
abbrev pub IsApart : List (List ℕ) → List LocalStep → Type 0
IsApart outer [] = Unit {0}
IsApart outer (made h ∷ steps) = IsApart outer steps
IsApart outer (deleted h ∷ steps) = All (λ top. is_live h top ≡ false) outer × IsApart outer steps

-- The frames that are not the innermost one after the constructor.
abbrev pub kept : Option ℕ → List ℕ → List (List ℕ) → List (List ℕ)
kept none top outer = top ∷ outer
kept (some x) top outer = outer

either_false : (a b : Bool) → (a || b) ≡ false → (a ≡ false) × (b ≡ false)
either_false true b h = absurd (false≢true (sym h))
either_false false b h = (refl, h)

remove_absent : (h : ℕ) (l : List ℕ) → is_live h l ≡ false → remove h l ≡ l
remove_absent h [] q = refl
remove_absent h (x ∷ xs) q =
    let e = either_false (h == x) (is_live h xs) q in
    if_false _ _ _ e.0 ∙ ap (λ z. x ∷ z) (remove_absent h xs e.1)

map-remove :
    (h : ℕ) (outer : List (List ℕ))
    → All (λ top. is_live h top ≡ false) outer
    → map (remove h) outer ≡ outer
map-remove h [] q = refl
map-remove h (top ∷ outer) q =
    ap₂ (λ (x : List ℕ) (y : List (List ℕ)). x ∷ y) (remove_absent h top q.0)
      (map-remove h outer q.1)

run_lem :
    (steps : List LocalStep) (top : List ℕ) (outer : List (List ℕ)) (s : Frames)
    → s.frames ≡ top ∷ outer
    → IsApart outer steps
    → drop 1 ((run steps s).frames) ≡ outer
run_lem [] top outer s h a = ap (drop 1) h
run_lem (made x ∷ steps) top outer s h a = run_lem steps (x ∷ top) outer _ (ap (made_in x) h) a
run_lem (deleted x ∷ steps) top outer s h a =
    run_lem steps (remove x top) outer _
      (ap (map (remove x)) h ∙ ap (λ z. remove x top ∷ z) (map-remove x outer a.0)) a.1

-- Over the life of a frame holder, with any references made and deleted between, of which none is
-- deleted that stood in a frame that stays: if PushLocalFrame succeeds, the frames afterwards are
-- exactly those of before; if it fails, the frame of the caller is gone with its references.
pub destroy-construct :
    (answer : Option ℕ) (steps : List LocalStep) (top : List ℕ) (outer : List (List ℕ))
    (p : Option ℕ)
    → IsApart (kept answer top outer) steps
    → (destroy (run steps (construct answer (record { frames = top ∷ outer; pending = p })))).frames
      ≡ kept answer top outer
unfolding destroy construct
destroy-construct none steps top outer p a = run_lem steps [] (top ∷ outer) _ refl a
destroy-construct (some x) steps top outer p a = run_lem steps top outer _ refl a
