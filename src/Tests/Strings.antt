-- ===== src/Tests/Strings.antt =====
-- toStringArray.h at concrete inputs.
use platform_libnativehelper.Strings.{
  State, nulls, finish, store, Jvm, to_string_array, with_array, add_strings, add_string,
  set_object_array_element, with_class, checked,
}
use platform_libnativehelper.Base.{◌+◌, ◌≡◌, refl, true, false, some, [], ◌∷◌, codes, arith}
use platform_libnativehelper.Strings.Filled.{IsAnswered, to_string_array-IsMade}

abbrev roomy : Jvm
roomy = record {
  string_class = some 3;
  new_object_array = λ c n. some 4;
  new_string_utf = λ i text. some (5 + i);
  set_element = λ i text. true;
}

abbrev idle : State
idle = record { locals = 9 ∷ []; elements = []; pending = false; faults = 0 }

to_string_array-IsMade_example :
    IsAnswered
      (codes "a" ∷ codes "bc" ∷ [])
      idle
      (some 3)
      (to_string_array roomy (codes "a" ∷ codes "bc" ∷ []) idle)
to_string_array-IsMade_example =
    to_string_array-IsMade roomy (codes "a" ∷ codes "bc" ∷ []) idle refl (omega arith)

made :
    (to_string_array roomy (codes "a" ∷ codes "bc" ∷ []) idle).1.elements
    ≡ some (codes "a") ∷ some (codes "bc") ∷ []
unfolding to_string_array with_array finish add_strings add_string store set_object_array_element
    nulls with_class checked
made = refl
