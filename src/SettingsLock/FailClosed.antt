-- ===== src/SettingsLock/FailClosed.antt =====
-- When the settings are unlocked.
use hypr_blocker.Base.{◌≡◌, refl, ◌↔◌, ◌⊎◌, inl, inr, true, Option, none, some, arith, Bool-cases}
use hypr_blocker.Base.Int.{ℤ, ◌≤ℤ◌, ltb_ℤ}
use hypr_blocker.Base.Time.{DateTime, as_utc}
use hypr_blocker.SettingsLock.{
  root, no_key, null, falsy, bad, stamp, LockSource, absent, broken, no_dict, holds,
  root_lock_is_corrupt, unlocked, without_lock, by_time, is_settings_locked,
}

-- The record names a time, and NTP says that it has come.
abbrev pub HasPassed : Option ℤ → LockSource → Type 0
HasPassed ntp source =
    (until : DateTime) × (t : ℤ) × (source ≡ holds (stamp until))
    × (ntp ≡ some t)
    × (as_utc until ≤ℤ t)

-- What unlocks in the root layout without a time.
abbrev pub SaysUnlocked : LockSource → Type 0
SaysUnlocked source = (source ≡ absent) ⊎ (source ≡ holds null)

by_time_iff :
    (wall : ℤ) (ntp : Option ℤ) (until : DateTime)
    → (by_time true wall ntp until ≡ unlocked) ↔ ((t : ℤ) × (ntp ≡ some t) × (as_utc until ≤ℤ t))
unfolding by_time
by_time_iff wall none until = (λ h. cc h, λ h. cc h.1)
by_time_iff wall (some t) until = elim (Bool-cases (ltb_ℤ t (as_utc until))) [
  | inl e ↦ rw e (λ h. cc h, λ h. let same : t ≡ h.0 = cc (h.1) in ground (arith, h.2, same))
  | inr e ↦ rw e (λ h. (t, refl, ground arith), λ h. refl)
]

-- With NTP asked for, the root layout answers unlocked exactly when the lock file is absent, records an
-- explicit null, or names a time that NTP says has come: a damaged file, an unreachable NTP and a
-- value of another kind never unlock.
pub root_unlocked_iff :
    (wall : ℤ) (ntp : Option ℤ) (source : LockSource)
    → (is_settings_locked root true wall ntp source ≡ unlocked)
      ↔ (SaysUnlocked source ⊎ HasPassed ntp source)
unfolding is_settings_locked without_lock root_lock_is_corrupt
root_unlocked_iff wall ntp absent = (λ h. inl (inl refl), λ h. refl)
root_unlocked_iff wall ntp broken =
    (λ h. cc h, λ h. elim h [ inl (inl e) ↦ cc e | inl (inr e) ↦ cc e | inr p ↦ cc p.2 ])
root_unlocked_iff wall ntp no_dict =
    (λ h. cc h, λ h. elim h [ inl (inl e) ↦ cc e | inl (inr e) ↦ cc e | inr p ↦ cc p.2 ])
root_unlocked_iff wall ntp (holds no_key) =
    (λ h. cc h, λ h. elim h [ inl (inl e) ↦ cc e | inl (inr e) ↦ cc e | inr p ↦ cc p.2 ])
root_unlocked_iff wall ntp (holds null) = (λ h. inl (inr refl), λ h. refl)
root_unlocked_iff wall ntp (holds falsy) =
    (λ h. cc h, λ h. elim h [ inl (inl e) ↦ cc e | inl (inr e) ↦ cc e | inr p ↦ cc p.2 ])
root_unlocked_iff wall ntp (holds bad) =
    (λ h. cc h, λ h. elim h [ inl (inl e) ↦ cc e | inl (inr e) ↦ cc e | inr p ↦ cc p.2 ])
root_unlocked_iff wall ntp (holds (stamp d)) =
    let (out, back) = by_time_iff wall ntp d in
    (
      λ h. let (t, now, le) = out h in inr (d, t, refl, now, le),
      λ h. elim h [
        | inl (inl e) ↦ cc e
        | inl (inr e) ↦ cc e
        | inr p ↦ let same : d ≡ p.0 = cc p.2 in back (p.1, p.3, rw same p.4)
      ],
    )
