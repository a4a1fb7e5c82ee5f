-- ===== src/Lazy/Query.antt =====
-- libnativehelper_lazy.c: JNI_GetCreatedJavaVMs may be called at any time.
use platform_libnativehelper.Base.{
  some_not_none, if_true, if_false, Outcome, returned, ◌>>=◌, ℕ, ◌≡◌, refl, sym, ap, ◌∙◌, subst,
  inl, inr, false, Option, none, some, List, [], ◌∷◌, Bool-cases, false≢true, Option-cases,
}
use platform_libnativehelper.Lazy.{
  State, Linker, rtld_noload, Code, OpenFlags, rtld_now, load_libnativehelper,
  jni_get_created_java_vms,
}
use platform_libnativehelper.Lazy.Once.{
  IsUnbindable, prevented, IsWellFormed, IsFresh, not_opened, missing,
}
use platform_libnativehelper.Lazy.Forward.{get_created_java_vms, count_vms, count_loaded, counted}
use platform_libnativehelper.Lazy.Reach.{
  Reachable, Reachable-IsReady, quiet-IsWellFormed, invoke_method-Forwarded, stops, ran,
}
use platform_libnativehelper.Lazy.Bound.{IsComplete, address_of}

-- A library that is in memory can be loaded again, and has every symbol.
pub record IsConsistent (k : Linker) : Type 0 where
  pub again :
      (opens : List OpenFlags) (handle : ℕ)
      → k.dlopen opens rtld_noload ≡ some handle
      → (h : ℕ) × (k.dlopen (rtld_noload ∷ opens) rtld_now ≡ some h) × IsComplete k h

abbrev Ends : Outcome (ℕ × ℕ × State) → Type 0
Ends o = (x : ℕ × ℕ × State) × (o ≡ returned x)

some_injective : {a b : ℕ} → some a ≡ some b → a ≡ b
some_injective {a = a} h = ap (value_or a) h
  where
    value_or : ℕ → Option ℕ → ℕ
    value_or d none = d
    value_or d (some x) = x

abbrev asked : State → State
asked s = record s { opens = rtld_noload ∷ s.opens }

module _ (k : Linker) (c : Code) (p_vm vm_max p_vm_count : ℕ) where
  count_vms-Ends :
      (s : State)
      → IsWellFormed k s
      → (IsFresh s → IsUnbindable k s → ⊥)
      → Ends (count_vms k c p_vm vm_max p_vm_count s)
  unfolding count_vms
  count_vms-Ends s h n =
      elim (invoke_method-Forwarded k c jni_get_created_java_vms (p_vm ∷ vm_max ∷ p_vm_count ∷ []) s
        h) [
          | stops f u e ↦ absurd (n f u)
          | ran t r a e _ _ _ ↦ (_, ap (λ o. o >>= λ r. returned (counted k c r)) e)
        ]

  resident_bindable :
      (s : State) (handle : ℕ)
      → IsConsistent k
      → s.g_prevent_libnativehelper_loading ≡ false
      → k.dlopen s.opens rtld_noload ≡ some handle
      → IsUnbindable k (record s { opens = rtld_noload ∷ s.opens })
      → ⊥
  resident_bindable s handle i p q (prevented w) = false≢true (sym p ∙ w)
  resident_bindable s handle i p q (not_opened w) =
      let a = i.again s.opens handle q in some_not_none a.0 (sym a.1 ∙ w)
  resident_bindable s handle i p q (missing h m w n) =
      let a = i.again s.opens handle q in
      a.2 m (ap (λ x. address_of k x m) (some_injective (sym a.1 ∙ w)) ∙ n)

  load-Ends :
      (s : State)
      → IsWellFormed k s
      → IsConsistent k
      → Ends (count_loaded k c p_vm vm_max p_vm_count (load_libnativehelper k rtld_noload s))
  unfolding load_libnativehelper count_loaded
  load-Ends s h i = elim (Bool-cases s.g_prevent_libnativehelper_loading) [
    | inl p ↦
        subst (λ (r : Option ℕ × State). Ends (count_loaded k c p_vm vm_max p_vm_count r))
          (sym (if_true _ _ _ p)) ((0, 0, s), refl)
    | inr p ↦
        subst (λ (r : Option ℕ × State). Ends (count_loaded k c p_vm vm_max p_vm_count r))
          (sym (if_false _ _ _ p))
          (elim (Option-cases (k.dlopen s.opens rtld_noload)) [
            | inl q ↦
                subst
                  (λ (o : Option ℕ). Ends (count_loaded k c p_vm vm_max p_vm_count (o, asked s)))
                  (sym q) ((0, 0, asked s), refl)
            | inr (handle, q) ↦
                subst
                  (λ (o : Option ℕ). Ends (count_loaded k c p_vm vm_max p_vm_count (o, asked s)))
                  (sym q)
                  (count_vms-Ends (asked s)
                    (quiet-IsWellFormed k s (rtld_noload ∷ s.opens)
                      s.g_prevent_libnativehelper_loading refl h)
                    (λ _ u. resident_bindable s handle i p q u))
          ])
  ]

  -- Whatever calls went before, JNI_GetCreatedJavaVMs returns and does not stop the process, if a
  -- library that is in memory can be loaded again and has every symbol.
  pub get_created_java_vms_total :
      (s : State)
      → Reachable k c s
      → IsConsistent k
      → (x : ℕ × ℕ × State) × (get_created_java_vms k c p_vm vm_max p_vm_count s ≡ returned x)
  unfolding get_created_java_vms
  get_created_java_vms_total s r i =
      let h = Reachable-IsReady k c s r in
      elim (Bool-cases s.g_java_vm_created_lazily) [
        | inl p ↦
            subst Ends (sym (if_true _ _ _ p))
              (count_vms-Ends s h (λ f _. false≢true (sym f.no_vm ∙ p)))
        | inr p ↦ subst Ends (sym (if_false _ _ _ p)) (load-Ends s h i)
      ]
