-- ===== src/Tests/Frames.antt =====
-- scoped_local_frame.h at concrete inputs.
use platform_libnativehelper.Base.{◌≡◌, refl, none, some, List, [], ◌∷◌}
use platform_libnativehelper.Scoped.LocalFrame.{
  destroy, LocalStep, run, made, construct, deleted, destroy-construct,
}

abbrev frame_steps : List LocalStep
frame_steps = made 5 ∷ (deleted 5 ∷ (made 6 ∷ []))

-- The frame could not be pushed, and the one of the caller is popped.
destroy-construct_example :
    (destroy (
      run frame_steps (
        construct
          (some 9)
          (record { frames = (1 ∷ []) ∷ ((2 ∷ []) ∷ []); pending = none })))).frames
    ≡ (2 ∷ []) ∷ []
destroy-construct_example =
    destroy-construct (some 9) frame_steps (1 ∷ []) ((2 ∷ []) ∷ []) none ((refl, tt), tt)
