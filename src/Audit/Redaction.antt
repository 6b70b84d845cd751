-- ===== src/Audit/Redaction.antt =====
-- What `redact` guarantees.
use erp_global.Common.{◌≡◌, refl, ap, ap₂, Bool, true, false, Bool-cases, inl, inr}
use erp_global.Common.Text.{Text, codes}
use erp_global.Audit.Json.{
  Json, null, bool, num, str, arr, obj, Items, nil, cons, Fields, end, field, is_secret_key, redact,
  redact_items, redact_fields,
}

-- Under a secret key stands the mark, at every level.
mutual
  pub data IsClean : Json → Type 0 where
    null_clean : IsClean null
    bool_clean : (b : Bool) → IsClean (bool b)
    num_clean : (n : Text) → IsClean (num n)
    str_clean : (s : Text) → IsClean (str s)
    arr_clean : {xs : Items} → AllClean xs → IsClean (arr xs)
    obj_clean : {fs : Fields} → FieldsClean fs → IsClean (obj fs)

  pub data AllClean : Items → Type 0 where
    nil_clean : AllClean nil
    cons_clean : {x : Json} {xs : Items} → IsClean x → AllClean xs → AllClean (cons x xs)

  pub data FieldsClean : Fields → Type 0 where
    end_clean : FieldsClean end
    plain_clean :
        (k : Text) {v : Json} {fs : Fields}
        → is_secret_key k ≡ false
        → IsClean v
        → FieldsClean fs
        → FieldsClean (field k v fs)
    secret_clean :
        (k : Text) {fs : Fields}
        → is_secret_key k ≡ true
        → FieldsClean fs
        → FieldsClean (field k (str (codes "[redacted]")) fs)

mutual
  unfolding redact

  clean : (j : Json) → IsClean (redact j)
  clean null = null_clean
  clean (bool b) = bool_clean b
  clean (num n) = num_clean n
  clean (str s) = str_clean s
  clean (arr xs) = arr_clean (clean_items xs)
  clean (obj fs) = obj_clean (clean_fields fs)

  clean_items : (xs : Items) → AllClean (redact_items xs)
  clean_items nil = nil_clean
  clean_items (cons x xs) = cons_clean (clean x) (clean_items xs)

  clean_fields : (fs : Fields) → FieldsClean (redact_fields fs)
  clean_fields end = end_clean
  clean_fields (field k v fs) =
      let c = clean v in
      let cs = clean_fields fs in
      elim (Bool-cases (is_secret_key k)) [
        | inl e ↦ rw e (secret_clean k e cs)
        | inr e ↦ rw e (plain_clean k e c cs)
      ]

-- After `redact`, whatever the payload and however deep, the value of a secret key is the mark.
pub redact-IsClean : (j : Json) → IsClean (redact j)
redact-IsClean j = clean j

mutual
  unfolding redact

  fixed : {j : Json} → IsClean j → redact j ≡ j
  fixed null_clean = refl
  fixed (bool_clean b) = refl
  fixed (num_clean n) = refl
  fixed (str_clean s) = refl
  fixed (arr_clean c) = ap arr (fixed_items c)
  fixed (obj_clean c) = ap obj (fixed_fields c)

  fixed_items : {xs : Items} → AllClean xs → redact_items xs ≡ xs
  fixed_items nil_clean = refl
  fixed_items (cons_clean c cs) = ap₂ cons (fixed c) (fixed_items cs)

  fixed_fields : {fs : Fields} → FieldsClean fs → redact_fields fs ≡ fs
  fixed_fields end_clean = refl
  fixed_fields (plain_clean k e c cs) = rw e (ap₂ (field k) (fixed c) (fixed_fields cs))
  fixed_fields (secret_clean k e cs) =
      rw e (ap (field k (str (codes "[redacted]"))) (fixed_fields cs))

-- What holds no secret is left as it is: exactly the clean payloads are not changed.
pub redact-eq_of_IsClean : {j : Json} → IsClean j → redact j ≡ j
redact-eq_of_IsClean c = fixed c
