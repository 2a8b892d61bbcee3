-- ===== src/Coordinator/Overlays/Timed.antt =====
-- The timers of the overlays in coordinator.py.
use aegis_hass.Base.{
  ℕ, ◌+◌, ◌*◌, ◌<◌, ◌≡◌, ◌≢◌, refl, sym, ap, ◌∙◌, false, ◌==◌, Option, none, some, List, inl, inr,
  arith,
}
use aegis_hass.Base.Kv.{lookup, lookup-remove}
use aegis_hass.Base.Text.{Text}
use aegis_hass.Base.TextMap.{get, pop, texts-cases, get-pop_same, get-pop_other}
use aegis_hass.Coordinator.Models.{Installed, Timer, Coordinator}
use aegis_hass.Coordinator.Overlays.{
  second, delay_overlay_grace_seconds, without_timer, cancel_delay_timer, clear_delay_overlay,
}

pub some_inj {ℓ} : {A : Type ℓ} {a b : A} → some a ≡ some b → a ≡ b
some_inj {a = a} e = ap (λ o. elim o [ none ↦ a | some x ↦ x ]) e

pub none_not_some {ℓ} : {A : Type ℓ} {a : A} → none ≢ some a
none_not_some e = cc

pub unequal_numbers : (j k : ℕ) → j ≢ k → (j == k) ≡ false
unequal_numbers j k h = ground (arith, h)

-- The pending timer of an installed overlay, on a wall clock that is `epoch` ahead of the loop's.
abbrev pub HasTimer : ℕ → Coordinator → Text → Installed → Type 0
HasTimer epoch c space_id installed =
    (timer : Timer) × (get space_id c.delay_overlay_cancels ≡ some installed.object)
    × (lookup installed.object c.timers ≡ some timer)
    × (timer.space_id ≡ space_id)
    × (timer.object ≡ installed.object)
    × (epoch + timer.due ≡ installed.overlay.ends_at + delay_overlay_grace_seconds * second)

-- Every overlay has its timer, and every timer and handle is that of its space's overlay.
pub record IsTimed (epoch : ℕ) (c : Coordinator) : Type 0 where
  pub has_timer :
      (s : Text) (o : Installed) → get s c.delay_overlays ≡ some o → HasTimer epoch c s o
  pub handles :
      (s : Text) (h : ℕ)
      → get s c.delay_overlay_cancels ≡ some h
      → (o : Installed) × (get s c.delay_overlays ≡ some o) × (o.object ≡ h)
  pub owned :
      (h : ℕ) (t : Timer)
      → lookup h c.timers ≡ some t
      → get t.space_id c.delay_overlay_cancels ≡ some h
  pub fresh : (h : ℕ) (t : Timer) → lookup h c.timers ≡ some t → h < c.next_handle

lookup-without_timer :
    (m : Option ℕ) (k : ℕ) (timers : List (ℕ × Timer))
    → m ≢ some k
    → lookup k (without_timer m timers) ≡ lookup k timers
lookup-without_timer none k timers h = refl
lookup-without_timer (some j) k timers h =
    lookup-remove j k timers ∙ rw (unequal_numbers j k (λ e. h (ap some e))) refl

lookup-without_timer-same :
    (k : ℕ) (timers : List (ℕ × Timer)) → lookup k (without_timer (some k) timers) ≡ none
lookup-without_timer-same k timers = lookup-remove k k timers ∙ ground arith

lookup-without_timer-some :
    (m : Option ℕ) (k : ℕ) (t : Timer) (timers : List (ℕ × Timer))
    → lookup k (without_timer m timers) ≡ some t
    → (m ≢ some k) × (lookup k timers ≡ some t)
lookup-without_timer-some m k t timers e =
    let away : m ≢ some k = λ h. none_not_some (
      sym (lookup-without_timer-same k timers)
      ∙ sym (ap (λ o. lookup k (without_timer o timers)) h)
      ∙ e) in
    (away, sym (lookup-without_timer m k timers away) ∙ e)

-- The handle of one space is not the one of another's overlay.
handle_apart :
    (epoch : ℕ) (c : Coordinator) (s t : Text) (o : Installed)
    → IsTimed epoch c
    → s ≢ t
    → get t c.delay_overlays ≡ some o
    → get s c.delay_overlay_cancels ≢ some o.object
handle_apart epoch c s t o w h e f =
    let (o', e', same) = w.handles s o.object f in
    let (timer', _, found', at_s, _, _) = w.has_timer s o' e' in
    let (timer, _, found, at_t, _, _) = w.has_timer t o e in
    let one : some timer' ≡ some timer = sym found' ∙ ap (λ k. lookup k c.timers) same ∙ found in
    h (sym at_s ∙ ap (λ r. r.space_id) (some_inj one) ∙ at_t)

pub clear_delay_overlay-IsTimed :
    (epoch : ℕ) (c : Coordinator) (s : Text)
    → IsTimed epoch c
    → IsTimed epoch (clear_delay_overlay s c).1
unfolding clear_delay_overlay cancel_delay_timer
clear_delay_overlay-IsTimed epoch c s w = record {
  has_timer = λ t o e. elim (texts-cases s t) [
    | inl h ↦ absurd (
        none_not_some
          (sym (get-pop_same s c.delay_overlays) ∙ ap (λ r. get r (pop s c.delay_overlays)) h ∙ e))
    | inr h ↦
        let kept = sym (get-pop_other s t c.delay_overlays h) ∙ e in
        let (timer, cancel, found, at_t, same, due) = w.has_timer t o kept in
        (
          timer,
          get-pop_other s t c.delay_overlay_cancels h ∙ cancel,
          lookup-without_timer _ o.object c.timers (handle_apart epoch c s t o w h kept) ∙ found,
          at_t,
          same,
          due,
        )
  ];
  handles = λ t k e. elim (texts-cases s t) [
    | inl h ↦ absurd (
        none_not_some (
          sym (get-pop_same s c.delay_overlay_cancels)
          ∙ ap (λ r. get r (pop s c.delay_overlay_cancels)) h
          ∙ e))
    | inr h ↦
        let (o, f, same) = w.handles t k (sym (get-pop_other s t c.delay_overlay_cancels h) ∙ e) in
        (o, get-pop_other s t c.delay_overlays h ∙ f, same)
  ];
  owned = λ k t e.
      let (away, found) = lookup-without_timer-some _ k t c.timers e in
      let owner = w.owned k t found in
      get-pop_other s t.space_id c.delay_overlay_cancels
        (λ h. away (ap (λ r. get r c.delay_overlay_cancels) h ∙ owner))
      ∙ owner;
  fresh = λ k t e. w.fresh k t (lookup-without_timer-some _ k t c.timers e).1;
}
