-- ===== src/Platform/Buffers.antt =====
-- JNIPlatformHelp.c: the fields of a direct buffer and the pointer to its next element.
use platform_libnativehelper.Base.{
  bind_returned, if_true, if_false, returned, ◌>>=◌, ℕ, ◌+◌, ◌*◌, ◌%◌, ◌^◌, ◌<◌, ◌≡◌, refl, sym, ap,
  ◌∙◌, subst, ◌≢◌, inl, inr, Option, none, some, arith, ltb, ◌==◌, if◌then◌else◌, ==_iff,
  Bool-cases,
}
use platform_libnativehelper.Platform.{
  add_position, State, shift_left, sign_extend, read, get_field, get_nio_buffer_pointer, Heap,
  get_nio_buffer_fields, get_buffer_position, get_buffer_limit, get_buffer_element_size_shift,
  offset_from,
}
use platform_libnativehelper.Constants.Initialize.{field_of}
use platform_libnativehelper.Constants.{
  Vm, FieldConstant, Cache, nio_buffer_position, nio_buffer_limit, nio_buffer_element_size_shift,
  nio_buffer_address,
}
use platform_libnativehelper.Constants.Resolved.{IsResolved}
use platform_libnativehelper.Constants.Initialize.{ensure_initialized}

-- The value of a field of an object, by the identifier that is cached.
abbrev pub value_at : Heap → ℕ → Option ℕ → ℕ
value_at heap object none = 0
value_at heap object (some a) = heap object a

abbrev pub value : State → FieldConstant → ℕ → ℕ
value s f object = value_at s.heap object (s.cache.fields f)

-- The pointer that the position and the shift make of an address.
abbrev pub expected_pointer : ℕ → ℕ → ℕ → ℕ
expected_pointer address position shift = if address == 0 then 0 else address + position * 2 ^ shift

shift_left_lem : (p h n : ℕ) → h < 32 → p * 2 ^ h ≡ n → n < 2 ^ 31 → shift_left p h ≡ n
unfolding shift_left
shift_left_lem p h n hh e hn =
    let m : h % 32 ≡ h = omega arith in
    let w : n % 2 ^ 32 ≡ n = omega arith in
    ap (λ x. (p * 2 ^ x) % 2 ^ 32) m ∙ ap (λ x. x % 2 ^ 32) e ∙ w

sign_extend_lem : (n : ℕ) → n < 2 ^ 31 → sign_extend n ≡ n
unfolding sign_extend
sign_extend_lem n h = if_true (ltb n (2 ^ 31)) _ _ (ground arith)

add_position_lem :
    (base p h n : ℕ)
    → h < 32
    → p * 2 ^ h ≡ n
    → n < 2 ^ 31
    → base + n < 2 ^ 64
    → add_position base p h ≡ base + n
unfolding add_position
add_position_lem base p h n hh e hn hb =
    let w : (base + n) % 2 ^ 64 ≡ base + n = omega arith in
    ap (λ x. (base + x) % 2 ^ 64)
      (ap sign_extend (shift_left_lem p h n hh e hn) ∙ sign_extend_lem n hn)
    ∙ w

pub field_of_ready :
    (vm : Vm) (env e : ℕ) (c : Cache) (f : FieldConstant)
    → IsResolved vm e c
    → field_of vm env f c ≡ returned (c.fields f, c)
unfolding field_of ensure_initialized
field_of_ready vm env e c f r =
    ap (λ o. o >>= λ t. returned (t.fields f, t)) (if_true _ _ _ r.is_initialized)

get_field_lem :
    (object : ℕ) (x : Option ℕ) (c : Cache) (heap : Heap)
    → x ≢ none
    → get_field object (x, c) heap
      ≡ returned (value_at heap object x, record { heap = heap; cache = c })
unfolding get_field
get_field_lem object none c heap h = absurd (h refl)
get_field_lem object (some a) c heap h = refl

module _ (vm : Vm) (env e : ℕ) (s : State) (r : IsResolved vm e s.cache) where
  -- A read of a field when the constants are cached.
  pub read_ready :
      (f : FieldConstant) (object : ℕ) → read vm env f object s ≡ returned (value s f object, s)
  unfolding read
  read_ready f object =
      ap (λ o. o >>= λ z. get_field object z s.heap) (field_of_ready vm env e s.cache f r)
      ∙ get_field_lem object (s.cache.fields f) s.cache s.heap (r.fields f).1

  fields_ready :
      (nb : ℕ)
      → get_nio_buffer_fields vm env nb s
        ≡ returned (
          value s nio_buffer_position nb,
          value s nio_buffer_limit nb,
          value s nio_buffer_element_size_shift nb,
          value s nio_buffer_address nb,
          s,
        )
  unfolding get_nio_buffer_fields get_buffer_position get_buffer_limit get_buffer_element_size_shift
  fields_ready nb =
      bind_returned _ _ _ (read_ready nio_buffer_position nb)
      ∙ bind_returned _ _ _ (read_ready nio_buffer_limit nb)
      ∙ bind_returned _ _ _ (read_ready nio_buffer_element_size_shift nb)
      ∙ bind_returned _ _ _ (read_ready nio_buffer_address nb)

  module _ (nb : ℕ) (shift_fits : value s nio_buffer_element_size_shift nb < 32)
      (int_fits : value s nio_buffer_position nb * 2 ^ value s nio_buffer_element_size_shift nb
        < 2 ^ 31)
      (sum_fits : value s nio_buffer_address nb
          + value s nio_buffer_position nb * 2 ^ value s nio_buffer_element_size_shift nb
        < 2 ^ 64) where
    offset_ready :
        (base : ℕ)
        → base ≡ value s nio_buffer_address nb
        → offset_from vm env nb (base, s)
          ≡ returned (
            expected_pointer base
                (value s nio_buffer_position nb)
                (value s nio_buffer_element_size_shift nb),
            s,
          )
    unfolding offset_from get_buffer_position get_buffer_element_size_shift
    offset_ready base q = elim (Bool-cases (base == 0)) [
      | inl z ↦
          if_true _ _ _ z ∙ ap (λ x. returned (x, s)) ((==_iff base 0).0 z ∙ sym (if_true _ _ _ z))
      | inr z ↦
          if_false _ _ _ z
          ∙ bind_returned _ _ _ (read_ready nio_buffer_position nb)
          ∙ bind_returned _ _ _ (read_ready nio_buffer_element_size_shift nb)
          ∙ ap (λ x. returned (x, s))
              (add_position_lem base _ _ _ shift_fits refl int_fits (
                  subst
                    (λ b.
                      b
                        + value s nio_buffer_position nb
                          * 2 ^ value s nio_buffer_element_size_shift nb
                      < 2 ^ 64)
                    (sym q) sum_fits)
                ∙ sym (if_false _ _ _ z))
    ]

    -- When the constants are cached, the pointer of a buffer is 0 if its address is 0, and else the
    -- address and the position shifted, if the shift is less than 32, the position shifted is an
    -- int and the sum is a jlong; those are the numbers that jniGetNioBufferFields reports, and
    -- neither call changes anything.
    pub nio_pointer_lem :
        (get_nio_buffer_pointer vm env nb s
          ≡ returned (
            expected_pointer
                (value s nio_buffer_address nb)
                (value s nio_buffer_position nb)
                (value s nio_buffer_element_size_shift nb),
            s,
          ))
        × (get_nio_buffer_fields vm env nb s
            ≡ returned (
              value s nio_buffer_position nb,
              value s nio_buffer_limit nb,
              value s nio_buffer_element_size_shift nb,
              value s nio_buffer_address nb,
              s,
            ))
    unfolding get_nio_buffer_pointer
    nio_pointer_lem = (
      bind_returned _ (offset_from vm env nb) _ (read_ready nio_buffer_address nb)
          ∙ offset_ready (value s nio_buffer_address nb) refl,
      fields_ready nb,
    )
