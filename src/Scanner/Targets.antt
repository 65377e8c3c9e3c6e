-- ===== src/Scanner/Targets.antt =====
-- What a pointer points to that is made for a field of a type.
use breezeorm.Prelude.{
  ℕ, ◌≡◌, refl, sym, ap, ◌∙◌, Bool, true, false, ◌&&◌, &&_true, some, if◌then◌else◌,
}
use breezeorm.Text.{Bytes, lit, bytes_eq, bytes_eq_lem}
use breezeorm.Metadata.{
  Scalar, int_type, int8_type, int16_type, int32_type, int64_type, uint_type, uint8_type,
  uint16_type, uint32_type, uint64_type, float32_type, float64_type, string_type, bool_type, GoType,
  scalar, defined, pointer, slice, defined_slice, struct_type, opaque,
}
use breezeorm.Scanner.{
  FieldKind, scalar_kind, null_kind, type_time, sql_type, classify, Pointer, pointee, assign_to,
}

-- A type without the name that it was given over a predeclared one.
abbrev pub underlying : GoType → GoType
underlying (defined name s) = scalar s
underlying (scalar s) = scalar s
underlying (pointer name) = pointer name
underlying (slice name) = slice name
underlying (defined_slice name) = defined_slice name
underlying (struct_type pkg name) = struct_type pkg name
underlying (opaque name) = opaque name

-- A kind under which a field of a type is scanned as what the type is underneath.
abbrev pub Fits : GoType → FieldKind → Type 0
Fits t k = (p : ℕ) → assign_to (pointee k) t p ≡ record { to = underlying t; address = p }

pointee-scalar_kind : (s : Scalar) → pointee (scalar_kind s) ≡ some (scalar s)
pointee-scalar_kind int_type = refl
pointee-scalar_kind int8_type = refl
pointee-scalar_kind int16_type = refl
pointee-scalar_kind int32_type = refl
pointee-scalar_kind int64_type = refl
pointee-scalar_kind uint_type = refl
pointee-scalar_kind uint8_type = refl
pointee-scalar_kind uint16_type = refl
pointee-scalar_kind uint32_type = refl
pointee-scalar_kind uint64_type = refl
pointee-scalar_kind float32_type = refl
pointee-scalar_kind float64_type = refl
pointee-scalar_kind string_type = refl
pointee-scalar_kind bool_type = refl

Fits-if :
    (t : GoType) (b : Bool) (k k' : FieldKind)
    → (b ≡ true → Fits t k)
    → Fits t k'
    → Fits t (if b then k else k')
Fits-if t true k k' h h' = h refl
Fits-if t false k k' h h' = h'

abbrev pointer_to : GoType → ℕ → Pointer
pointer_to t p = record { to = t; address = p }

null_kind-Fits :
    (pkg name : Bytes)
    → bytes_eq pkg (lit "database/sql") ≡ true
    → Fits (struct_type pkg name) (null_kind name)
null_kind-Fits pkg name h =
    Fits-if t (bytes_eq name (lit "NullString")) _ _ (named (lit "NullString")) (
      Fits-if t (bytes_eq name (lit "NullInt64")) _ _ (named (lit "NullInt64")) (
        Fits-if t (bytes_eq name (lit "NullInt32")) _ _ (named (lit "NullInt32")) (
          Fits-if t (bytes_eq name (lit "NullFloat64")) _ _ (named (lit "NullFloat64")) (
            Fits-if t (bytes_eq name (lit "NullBool")) _ _ (named (lit "NullBool")) (
              Fits-if t (bytes_eq name (lit "NullTime")) _ _ (named (lit "NullTime"))
                (λ p. refl))))))
  where
    t : GoType
    t = struct_type pkg name

    named :
        (known : Bytes)
        → bytes_eq name known ≡ true
        → (p : ℕ) → pointer_to (sql_type known) p ≡ pointer_to (struct_type pkg name) p
    named known e p =
        ap (λ n. pointer_to (sql_type n) p) (sym (bytes_eq_lem name known e))
        ∙ ap (λ k. pointer_to (struct_type k name) p)
            (sym (bytes_eq_lem pkg (lit "database/sql") h))

time-Fits :
    (pkg name : Bytes)
    → (bytes_eq pkg (lit "time") && bytes_eq name (lit "Time")) ≡ true
    → (p : ℕ) → pointer_to type_time p ≡ pointer_to (struct_type pkg name) p
time-Fits pkg name h p =
    let (of_pkg, of_name) = &&_true (bytes_eq pkg (lit "time")) (bytes_eq name (lit "Time")) h in
    ap (λ n. pointer_to (struct_type (lit "time") n) p)
      (sym (bytes_eq_lem name (lit "Time") of_name))
    ∙ ap (λ k. pointer_to (struct_type k name) p) (sym (bytes_eq_lem pkg (lit "time") of_pkg))

-- A field of any type is scanned through a pointer to that type, or to the type underneath.
pub classify-Fits : (t : GoType) → Fits t (classify t)
unfolding classify
classify-Fits (scalar s) p = ap (λ o. assign_to o (scalar s) p) (pointee-scalar_kind s)
classify-Fits (defined name s) p = ap (λ o. assign_to o (defined name s) p) (pointee-scalar_kind s)
classify-Fits (slice elem) p =
    Fits-if (slice elem) (bytes_eq elem (lit "uint8")) _ _
      (λ e p. ap (λ n. pointer_to (slice n) p) (sym (bytes_eq_lem elem (lit "uint8") e)))
      (λ p. refl) p
classify-Fits (struct_type pkg name) p =
    Fits-if (struct_type pkg name) (bytes_eq pkg (lit "time") && bytes_eq name (lit "Time")) _ _
      (time-Fits pkg name)
      (Fits-if (struct_type pkg name) (bytes_eq pkg (lit "database/sql")) _ _
        (null_kind-Fits pkg name) (λ p. refl))
      p
classify-Fits (pointer elem) p = refl
classify-Fits (defined_slice name) p = refl
classify-Fits (opaque name) p = refl
