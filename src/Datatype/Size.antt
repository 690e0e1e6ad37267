-- ===== src/Datatype/Size.antt =====
-- The size of a datatype, against the product and the sum that it stands for.
use libasdf.Prelude.{ℕ, suc, ◌+◌, ◌*◌, ◌%◌, ◌<◌, ◌≡◌, refl, sym, ap, ◌∙◌}
use libasdf.Prelude.{◌⊎◌, inl, inr, true, false, not, ◌&&◌, ◌||◌, Option, arith}
use libasdf.Prelude.{List, [], ◌∷◌, length}
use libasdf.Prelude.{ltb, ◌==◌, if◌then◌else◌, Bool-cases}
use libasdf.Prelude.Bytes.{size_mod}
use libasdf.Prelude.{lt→ltb}
use libasdf.Datatype.{Byteorder}
use libasdf.Datatype.{
  Scalar, Datatype, Fields, datatype, end, field, is_string, is_structured, scalar_size,
  times_shape, datatype_size, fields_size,
}

-- The size without the kept ones: of a string what its creator set, of any other the size of its
-- scalar or of its fields together, times the shape.
unfoldable mutual
  pub full : Datatype → ℕ
  full (datatype t size name order shape fs) =
      if is_string t
      then size
      else times_shape (if is_structured t then full_fields fs else scalar_size t) shape

  pub full_fields : Fields → ℕ
  full_fields end = 0
  full_fields (field d fs) = (full d + full_fields fs) % size_mod

-- Every size that is kept, in the datatype and in its fields, is 0 or the right one.
unfoldable mutual
  pub IsConsistent : Datatype → Type 0
  IsConsistent (datatype t size name order shape fs) =
      ((size ≡ 0) ⊎ (size ≡ full (datatype t size name order shape fs)))
      × (size < size_mod)
      × AreConsistent fs

  pub AreConsistent : Fields → Type 0
  AreConsistent end = Unit {0}
  AreConsistent (field d fs) = IsConsistent d × AreConsistent fs

times_shape_zero : (shape : List ℕ) → times_shape 0 shape ≡ 0
unfolding times_shape
times_shape_zero [] = refl
times_shape_zero (n ∷ shape) =
    let zero_times : 0 * n % size_mod ≡ 0 = omega arith in
    ap (λ k. times_shape k shape) zero_times ∙ times_shape_zero shape

times_shape_small : (b : ℕ) (shape : List ℕ) → b < size_mod → times_shape b shape < size_mod
unfolding times_shape
times_shape_small b [] h = h
times_shape_small b (n ∷ shape) h = times_shape_small (b * n % size_mod) shape (omega arith)

-- The multiplication that the code leaves out makes no difference.
shaped :
    (b : ℕ) (shape : List ℕ)
    → (if not (b == 0) && ltb 0 (length shape) then times_shape b shape else b)
      ≡ times_shape b shape
unfolding times_shape
shaped b [] = ground arith
shaped b (n ∷ shape) = elim (Bool-cases (b == 0)) [
  | inl z ↦
      let zero_base : b ≡ 0 = ground (arith, z) in
      rw z (
        zero_base
        ∙ sym (times_shape_zero (n ∷ shape))
        ∙ ap (λ k. times_shape k (n ∷ shape)) (sym zero_base))
  | inr k ↦ rw (k, lt→ltb 0 (suc (length shape)) (omega arith)) refl
]

scalar_size_small : (t : Scalar) → scalar_size t < size_mod
unfolding scalar_size
scalar_size_small t = ground arith

full_fields_small : (fs : Fields) → full_fields fs < size_mod
unfolding full_fields
full_fields_small end = omega arith
full_fields_small (field d fs) = omega arith

-- What a computation of the size gives, and what it leaves in the datatype.
abbrev pub Sized : Datatype → Type 0
Sized d =
    ((datatype_size d).0 ≡ full d)
    × IsConsistent (datatype_size d).1
    × (full (datatype_size d).1 ≡ full d)

abbrev pub AreSized : Fields → Type 0
AreSized fs =
    (acc : ℕ)
    → acc < size_mod
    → ((fields_size fs acc).0 ≡ (acc + full_fields fs) % size_mod)
      × AreConsistent (fields_size fs acc).1
      × (full_fields (fields_size fs acc).1 ≡ full_fields fs)

sized_kept :
    (t : Scalar) (size : ℕ) (name : Option (List ℕ)) (order : Byteorder) (shape : List ℕ)
    (fs : Fields)
    → IsConsistent (datatype t size name order shape fs)
    → not (size == 0) || is_string t ≡ true
    → Sized (datatype t size name order shape fs)
unfolding datatype_size full IsConsistent
sized_kept t size name order shape fs c e = rw e (right, c, refl)
  where
    right : size ≡ (
        if is_string t
        then size
        else times_shape (if is_structured t then full_fields fs else scalar_size t) shape)
    right = elim (Bool-cases (is_string t)) [
      | inl y ↦ rw y refl
      | inr n ↦ elim c.0 [ inl z ↦ absurd (ground (arith, e, n, z)) | inr k ↦ k ]
    ]

sized_computed :
    (t : Scalar) (size : ℕ) (name : Option (List ℕ)) (order : Byteorder) (shape : List ℕ)
    (fs : Fields)
    → IsConsistent (datatype t size name order shape fs)
    → AreSized fs
    → not (size == 0) || is_string t ≡ false
    → Sized (datatype t size name order shape fs)
unfolding datatype_size full IsConsistent
sized_computed t size name order shape fs c sized e =
    let no_string : is_string t ≡ false = ground (arith, e) in
    elim (Bool-cases (is_structured t)) [
      | inl y ↦
          let (sum, fields, same) = sized 0 (omega arith) in
          let total : (fields_size fs 0).0 ≡ full_fields fs =
            omega (arith, sum, full_fields_small fs) in
          let right = shaped (fields_size fs 0).0 shape ∙ ap (λ k. times_shape k shape) total in
          let small = times_shape_small (full_fields fs) shape (full_fields_small fs) in
          rw (e, no_string, y)
            (
              right,
              (
                inr (right ∙ ap (λ k. times_shape k shape) (sym same)),
                omega (arith, right, small),
                fields,
              ),
              ap (λ k. times_shape k shape) same,
            )
      | inr n ↦
          let right = shaped (scalar_size t) shape in
          let small = times_shape_small (scalar_size t) shape (scalar_size_small t) in
          rw (e, no_string, n) (right, (inr right, omega (arith, right, small), c.2), refl)
    ]

mutual
  unfolding IsConsistent AreConsistent fields_size full_fields

  sized : (d : Datatype) → IsConsistent d → Sized d
  sized (datatype t size name order shape fs) c =
      elim (Bool-cases (not (size == 0) || is_string t)) [
        | inl y ↦ sized_kept t size name order shape fs c y
        | inr n ↦ sized_computed t size name order shape fs c (λ acc h. sized_fields fs c.2 acc h) n
      ]

  sized_fields : (fs : Fields) → AreConsistent fs → AreSized fs
  sized_fields end c acc h = (omega arith, tt, refl)
  sized_fields (field d fs) (cd, cf) acc h =
      let (size, consistent, same) = sized d cd in
      let (sum, fields, same') =
        sized_fields fs cf ((acc + (datatype_size d).0) % size_mod) (omega arith) in
      (omega (arith, size, sum), (consistent, fields), omega (arith, same, same'))

-- Of a datatype whose kept sizes are each 0 or right, the size is computed right, whatever is kept;
-- what is kept afterwards is right again, and a second call gives the same size.
pub datatype_size-full :
    (d : Datatype)
    → IsConsistent d
    → ((datatype_size d).0 ≡ full d)
      × IsConsistent (datatype_size d).1
      × ((datatype_size (datatype_size d).1).0 ≡ full d)
datatype_size-full d c =
    let (size, consistent, same) = sized d c in
    let (size', consistent', same') = sized (datatype_size d).1 consistent in
    (size, consistent, size' ∙ same)
