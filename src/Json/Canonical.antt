-- ===== src/Json/Canonical.antt =====
-- `_normalize_numbers` and transports that turn whole ints into floats, as a JavaScript hop does.
use native.Mathlib.Nat.{mul-mod_left, mul-div_cancel, pow-suc}
use mcp_odoo.Prelude.{
  ℕ, zero, suc, ◌*◌, ◌/◌, ◌%◌, ◌^◌, ◌<◌, ◌≡◌, refl, sym, ap, String, true, arith, ◌==◌,
}
use mcp_odoo.Prelude.Int.{ℤ, pos, negsuc, neg, abs, times, quotient}
use mcp_odoo.Json.{
  Value, int, float, list, dict, Items, nil, cons, Fields, end, field, normalize, normalize_items,
  normalize_fields, sort_keys, canonical,
}

-- The second value is the first after transport: any int inside may have become an equal float.
mutual
  pub data Resent : Value → Value → Type 0 where
    unchanged : (v : Value) → Resent v v
    as_float : (a : ℤ) (e : ℕ) → Resent (int a) (float (times a (2 ^ e)) e)
    resent_list : {vs ws : Items} → ResentItems vs ws → Resent (list vs) (list ws)
    resent_dict : {fs gs : Fields} → ResentFields fs gs → Resent (dict fs) (dict gs)

  pub data ResentItems : Items → Items → Type 0 where
    resent_nil : ResentItems nil nil
    resent_cons :
        {v w : Value} {vs ws : Items}
        → Resent v w
        → ResentItems vs ws
        → ResentItems (cons v vs) (cons w ws)

  pub data ResentFields : Fields → Fields → Type 0 where
    resent_end : ResentFields end end
    resent_field :
        (k : String) {v w : Value} {fs gs : Fields}
        → Resent v w
        → ResentFields fs gs
        → ResentFields (field k v fs) (field k w gs)

power_pos : (e : ℕ) → 0 < 2 ^ e
power_pos zero = omega arith
power_pos (suc e) = rw pow-suc (omega (arith, power_pos e))

multiple_remainder : (n p : ℕ) → (n * p % p == 0) ≡ true
multiple_remainder n p = rw (mul-mod_left n p)

abs-neg : (m : ℕ) → abs (neg m) ≡ m
abs-neg zero = refl
abs-neg (suc m) = refl

neg-whole : (m p : ℕ) → 0 < p → quotient (neg m) p ≡ neg (m / p)
unfolding quotient
neg-whole zero p h = ground arith
neg-whole (suc m) p h = refl

-- the float of a whole number counts as whole, and comes back as that number
as_float-normalize : (a : ℤ) (e : ℕ) → normalize (float (times a (2 ^ e)) e) ≡ int a
unfolding normalize times
as_float-normalize (pos n) e =
    rw (multiple_remainder n (2 ^ e)) (unfold quotient in rw (mul-div_cancel n (power_pos e)))
as_float-normalize (negsuc n) e =
    rw (abs-neg, multiple_remainder (suc n) (2 ^ e))
      (rw (neg-whole (suc n * 2 ^ e) (2 ^ e) (power_pos e), mul-div_cancel (suc n) (power_pos e)))

mutual
  unfolding normalize

  resent : {v w : Value} → Resent v w → normalize v ≡ normalize w
  resent (unchanged v) = refl
  resent (as_float a e) = sym (as_float-normalize a e)
  resent (resent_list r) = ap list (resent_items r)
  resent (resent_dict r) = ap dict (resent_fields r)

  resent_items : {vs ws : Items} → ResentItems vs ws → normalize_items vs ≡ normalize_items ws
  resent_items resent_nil = refl
  resent_items (resent_cons r rs) = cc (resent r, resent_items rs)

  resent_fields : {fs gs : Fields} → ResentFields fs gs → normalize_fields fs ≡ normalize_fields gs
  resent_fields resent_end = refl
  resent_fields (resent_field k r rs) = cc (resent r, resent_fields rs)

-- Values that differ only by such a transport have one canonical form.
pub canonical-Resent : {v w : Value} → Resent v w → canonical v ≡ canonical w
unfolding canonical
canonical-Resent r = ap sort_keys (resent r)
