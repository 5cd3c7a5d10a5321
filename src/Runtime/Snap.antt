-- ===== src/Runtime/Snap.antt =====
-- `snap_mutable_params` of include/ocudu_gpu_channel/runtime_control.h over the slots of a link.
use ocudu_channel.Common.{
  ℕ, ◌^◌, ◌<◌, ◌≡◌, ◌≢◌, refl, Bool, true, false, ◌||◌, List, [], ◌∷◌, ltb, leb, ◌==◌,
  if◌then◌else◌, arith, Bool-cases, inl, inr,
}
use ocudu_channel.Runtime.{MutableParams, BrokerLinkControl, bump_seqno, snap_mutable_params}

-- Some slot has reached the gate.
abbrev pub reached : ℕ → List ℕ → Bool
reached gate [] = false
reached gate (slot ∷ slots) = leb gate slot || reached gate slots

pub bump_seqno-ne : (n : ℕ) → n < 2 ^ 32 → bump_seqno n ≢ n
bump_seqno-ne n h = omega arith

module _ {F G : Type 0} where
  -- One snap per slot while the control thread writes nothing: what `live` is in the end.
  unfoldable pub snap_all : MutableParams G → ℕ → BrokerLinkControl F G → List ℕ → MutableParams G
  snap_all live live_seqno ctl [] = live
  snap_all live live_seqno ctl (slot ∷ slots) =
      let (live', seen, ctl', changed) = snap_mutable_params live live_seqno ctl slot in
      snap_all live' seen ctl' slots

  -- Once `live` has taken an update, later slots leave it alone.
  snap_all_synced :
      (live : MutableParams G) (n : ℕ) (ctl : BrokerLinkControl F G) (slots : List ℕ)
      → ctl.seqno ≡ n
      → snap_all live n ctl slots ≡ live
  unfolding snap_all snap_mutable_params
  snap_all_synced live n ctl [] e = refl
  snap_all_synced live n ctl (slot ∷ slots) e =
      let same : (ctl.seqno == n) ≡ true = ground (arith, e) in
      rw same (snap_all_synced live n (record ctl { current_slot = slot }) slots e)

  -- An update that `live` has not seen yet is taken as a whole at the first slot that has reached its
  -- gate, and not before: over any slots, in any order, `live` is the shadow if one of them reached
  -- `take_effect_at_slot`, and what it was otherwise.
  pub snap_all-reached :
      (live : MutableParams G) (n : ℕ) (ctl : BrokerLinkControl F G) (slots : List ℕ)
      → ctl.seqno ≢ n
      → snap_all live n ctl slots
        ≡ (if reached ctl.take_effect_at_slot slots then ctl.shadow else live)
  unfolding snap_all snap_mutable_params
  snap_all-reached live n ctl [] ne = refl
  snap_all-reached live n ctl (slot ∷ slots) ne =
      let other : (ctl.seqno == n) ≡ false = ground (arith, ne) in
      elim (Bool-cases (ltb slot ctl.take_effect_at_slot)) [
        | inl closed ↦
            let not_yet : leb ctl.take_effect_at_slot slot ≡ false = ground (arith, closed) in
            rw (other, closed, not_yet)
              (snap_all-reached live n (record ctl { current_slot = slot }) slots ne)
        | inr opened ↦
            let now : leb ctl.take_effect_at_slot slot ≡ true = ground (arith, opened) in
            rw (other, opened, now)
              (snap_all_synced ctl.shadow ctl.seqno (record ctl { current_slot = slot }) slots refl)
      ]
