-- ===== src/Foundation.antt =====
-- The values of Python's standard library that the domain keeps: `UUID`, `datetime` and `Decimal`.
-- A UUID is compared only, so it is a number. A datetime is its instant, in microseconds, and
-- whether it carries a timezone. A Decimal is an integer number of units of 10^-28, the precision
-- of Python's default context.
use plataforma_saa_s_de_auto.Prelude.{ℕ, ◌*◌, ◌^◌, Bool, not, ◌||◌, String, ℤ, pos, ltb_ℤ, [], ◌∷◌}
use plataforma_saa_s_de_auto.Prelude.Text.{text_concat}
use plataforma_saa_s_de_auto.Errors.{Result, raise_if, validation_error}

abbrev pub Uuid : Type 0
Uuid = ℕ

-- `TenantId` of tenancy/domain.py wraps a UUID.
abbrev pub TenantId : Type 0
TenantId = Uuid

pub record DateTime : Type 0 where
  pub instant : ℕ
  pub aware : Bool

abbrev pub Decimal : Type 0
Decimal = ℤ

-- `Decimal("0.n")` of two decimals.
abbrev pub hundredths : ℕ → Decimal
hundredths n = pos (n * 10 ^ 26)

-- `_ensure_aware`
unfoldable pub ensure_aware : DateTime → String → Result (Unit {0})
ensure_aware value field_name =
    raise_if (not value.aware)
      (validation_error (text_concat (field_name ∷ " must include timezone information" ∷ [])))

-- `_ensure_ratio`
unfoldable pub ensure_ratio : Decimal → String → Result (Unit {0})
ensure_ratio value field_name =
    raise_if (ltb_ℤ value (pos 0) || ltb_ℤ (hundredths 100) value)
      (validation_error (text_concat (field_name ∷ " must be between 0 and 1" ∷ [])))
