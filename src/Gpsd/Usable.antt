-- ===== src/Gpsd/Usable.antt =====
-- Which fixes are used.
use meshcore_rpc_services.Prelude.{
  ◌≡◌, ◌⊎◌, inl, inr, refl, true, false, Option, none, some, String, ◌==◌, arith, or_else,
  Bool-cases, ap, subst,
}
use meshcore_rpc_services.Prelude.Int.{pos, Fixed, of_int, trunc, ◌≤ℤ◌}
use meshcore_rpc_services.Prelude.Dict.{Dict, lookup}
use meshcore_rpc_services.Gpsd.{
  GpsdFix, parse_tpv, usable, fine_enough, of_class, located, by_mode, has_position, too_coarse,
}
use meshcore_rpc_services.Value.{Json, obj, entries, number?, text?}

-- A fix with two or three dimensions, read at this time.
pub record IsPosition (now : Fixed) (f : GpsdFix) : Type 0 where
  pub dimensions : (f.fix ≡ some (pos 2)) ⊎ (f.fix ≡ some (pos 3))
  pub read_at : f.ts ≡ now

some_inj : {A : Type 0} {a b : A} → some a ≡ some b → a ≡ b
some_inj {a} h = ap (λ o. or_else o a) h

-- The accuracy is within the bound, where both are known.
abbrev pub Within : Option Fixed → Option Fixed → Type 0
Within (some m) (some a) = a ≤ℤ m
Within _ _ = Unit

within : (max_acc_m acc : Option Fixed) → too_coarse max_acc_m acc ≡ false → Within max_acc_m acc
within (some m) (some a) h = ground arith
within (some m) none h = tt
within none (some a) h = tt
within none none h = tt

mode_read : (mode : Fixed) → has_position mode ≡ true → (trunc mode ≡ pos 2) ⊎ (trunc mode ≡ pos 3)
unfolding trunc of_int
mode_read mode h = ground arith

located-IsPosition :
    (msg : Dict Json) (now mode : Fixed) (lat lon : Option Fixed) (f : GpsdFix)
    → has_position mode ≡ true
    → located msg now mode lat lon ≡ some f
    → IsPosition now f
located-IsPosition msg now mode (some lat) (some lon) f known h =
    subst (IsPosition now) (some_inj h) (record {
      dimensions = elim (mode_read mode known) [
        | inl two ↦ inl (ap some two)
        | inr three ↦ inr (ap some three)
      ];
      read_at = refl;
    })
located-IsPosition msg now mode (some lat) none f known h = cc
located-IsPosition msg now mode none lon f known h = cc

by_mode-IsPosition :
    (msg : Dict Json) (now : Fixed) (mode : Option Fixed) (f : GpsdFix)
    → by_mode msg now mode ≡ some f
    → IsPosition now f
by_mode-IsPosition msg now none f h = cc
by_mode-IsPosition msg now (some mode) f h = elim (Bool-cases (has_position mode)) [
  | inl known ↦ located-IsPosition msg now mode _ _ f known (rw known at h)
  | inr unknown ↦ cc (rw unknown at h)
]

fine_within :
    (max_acc_m : Option Fixed) (o : Option GpsdFix) (f : GpsdFix)
    → fine_enough max_acc_m o ≡ some f
    → (o ≡ some f) × Within max_acc_m f.acc
fine_within max_acc_m none f h = cc
fine_within max_acc_m (some g) f h = elim (Bool-cases (too_coarse max_acc_m g.acc)) [
  | inl coarse ↦ cc (rw coarse at h)
  | inr fine ↦
      let e : some g ≡ some f = rw fine at h in
      (
        e,
        subst (λ (x : GpsdFix). Within max_acc_m x.acc) (some_inj e) (within max_acc_m g.acc fine),
      )
]

class_used :
    (max_acc_m : Option Fixed) (msg : Dict Json) (now : Fixed) (class : Option String) (f : GpsdFix)
    → of_class max_acc_m msg now class ≡ some f
    → fine_enough max_acc_m (parse_tpv msg now) ≡ some f
class_used max_acc_m msg now none f h = cc
class_used max_acc_m msg now (some class) f h = elim (Bool-cases (class == "TPV")) [
  | inl position ↦ rw position at h
  | inr other ↦ cc (rw other at h)
]

used_parsed :
    (max_acc_m : Option Fixed) (now : Fixed) (msg : Dict Json) (f : GpsdFix)
    → fine_enough max_acc_m (parse_tpv msg now) ≡ some f
    → IsPosition now f × Within max_acc_m f.acc
unfolding parse_tpv
used_parsed max_acc_m now msg f h =
    let (e, bound) = fine_within max_acc_m (parse_tpv msg now) f h in
    (by_mode-IsPosition msg now (number? (lookup "mode" msg)) f e, bound)

-- Every fix that the client hands on, with a bound on the accuracy or without one, has two or three
-- dimensions and the time at which it was read, and where there is a bound and the fix tells its
-- accuracy, that is within the bound.
pub usable-IsPosition :
    (max_acc_m : Option Fixed) (now : Fixed) (line : Option Json) (f : GpsdFix)
    → usable max_acc_m line now ≡ some f
    → IsPosition now f × Within max_acc_m f.acc
unfolding usable
usable-IsPosition max_acc_m now (some (obj fs)) f h =
    used_parsed max_acc_m now (entries fs) f
      (class_used max_acc_m (entries fs) now (text? (lookup "class" (entries fs))) f h)
usable-IsPosition max_acc_m now _ f h = cc
