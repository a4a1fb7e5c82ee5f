-- ===== src/Tests/Scoped.antt =====
-- The holders of header_only_include/nativehelper at concrete inputs.
use platform_libnativehelper.Scoped.UtfChars
use platform_libnativehelper.Scoped.LocalRef.{
  destroy, run, perform, reset, release, construct, reset_to, delete_held, same_ref, release_ref,
}
use platform_libnativehelper.Scoped.LocalRef.Owned.{count, count_held, given, destroy-run}
use platform_libnativehelper.Base.{◌+◌, ◌≡◌, refl, ◌⊎◌, false, none, some, [], ◌∷◌, leb, length}
use platform_libnativehelper.Scoped.PrimitiveArray.{
  Log, Arrays, jni_abort, destroy_ro, construct_ro, get_ro, buffer_size,
}
use platform_libnativehelper.Scoped.PrimitiveArray.Balanced.{IsBalanced, construct_ro-destroy_ro}
use platform_libnativehelper.Scoped.UtfChars.{destroy_both, into_left, onto_itself}
use platform_libnativehelper.Scoped.UtfChars.Moved.{destroy_both-run}

destroy-run_example :
    count 7 (destroy (run (reset_to (some 8) ∷ release_ref ∷ []) (construct (some 7)))).deleted
      + count 7 (destroy (run (reset_to (some 8) ∷ release_ref ∷ []) (construct (some 7)))).handed
    ≡ count_held 7 (some 7) + given 7 (reset_to (some 8) ∷ release_ref ∷ []) (construct (some 7))
destroy-run_example = destroy-run 7 (some 7) (reset_to (some 8) ∷ release_ref ∷ [])

-- The reference 7 is deleted by the reset, and 8 is handed back.
moved : (run (reset_to (some 8) ∷ release_ref ∷ []) (construct (some 7))).handed ≡ 8 ∷ []
unfolding run perform reset release construct delete_held same_ref
moved = refl

abbrev small_array : Arrays
small_array = record { elements = λ array. 1 ∷ 2 ∷ 3 ∷ []; address = λ acquired array. some 4096 }

abbrev quiet : Log
quiet = record { acquired = []; given_back = []; null_pointer_exceptions = 0 }

construct_ro-destroy_ro_example :
    IsBalanced jni_abort 5 quiet (destroy_ro (construct_ro small_array (some 5) quiet))
    × ((construct_ro small_array (some 5) quiet).0.size ≡ length (small_array.elements 5))
    × ((get_ro small_array ((construct_ro small_array (some 5) quiet).0)
          ≡ some (small_array.elements 5))
        ⊎ ((get_ro small_array ((construct_ro small_array (some 5) quiet).0) ≡ none)
            × (small_array.address [] 5 ≡ none)
            × (leb (length (small_array.elements 5)) buffer_size ≡ false)))
construct_ro-destroy_ro_example = construct_ro-destroy_ro small_array 5 quiet

abbrev two_holders : UtfChars.State
two_holders = record {
  left = record { string = some 1; utf_chars = some 21 };
  right = record { string = some 2; utf_chars = some 22 };
  released = [];
}

destroy_both-run_example :
    count 21 (destroy_both (UtfChars.run (into_left ∷ onto_itself ∷ []) two_holders))
    ≡ count 21 two_holders.released
      + count_held 21 two_holders.left.utf_chars
      + count_held 21 two_holders.right.utf_chars
destroy_both-run_example = destroy_both-run 21 (into_left ∷ onto_itself ∷ []) two_holders
