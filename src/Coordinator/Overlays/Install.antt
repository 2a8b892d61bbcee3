-- ===== src/Coordinator/Overlays/Install.antt =====
-- Installing an overlay and firing its timer in coordinator.py.
use aegis_hass.Base.{
  ℕ, suc, ◌+◌, ◌*◌, ◌<◌, ◌≡◌, ◌⊎◌, refl, sym, ap, ◌∙◌, Bool, Bool-cases, ◌==◌, none, some, List,
  inl, inr, arith,
}
use aegis_hass.Base.Kv.{lookup, insert, lookup-insert}
use aegis_hass.Base.Text.{Text}
use aegis_hass.Base.TextMap.{
  get, set, pop, texts-cases, get-set_same, get-set_other, get-pop_same, get-pop_other,
}
use aegis_hass.Coordinator.Models.{DelayKind, Installed, Timer, Coordinator}
use aegis_hass.Coordinator.Overlays.{
  second, delay_overlay_grace_seconds, cancel_delay_timer, clear_delay_overlay, set_delay_overlay,
  expire_delay_overlay, is_object, notify, clock_at,
}
use aegis_hass.Coordinator.Overlays.Timed.{
  some_inj, none_not_some, unequal_numbers, IsTimed, clear_delay_overlay-IsTimed,
}

abbrev installed_in : Coordinator → Text → Installed → Timer → Coordinator
installed_in c s o t0 = record c {
  delay_overlays = set s o c.delay_overlays;
  delay_overlay_cancels = set s o.object c.delay_overlay_cancels;
  timers = insert o.object t0 c.timers;
  next_handle = suc c.next_handle;
}

-- What is read of a state in which nothing is installed for the space `s`, and something is then.
module _ (epoch : ℕ) (c : Coordinator) (s : Text) (o : Installed) (t0 : Timer) (w : IsTimed epoch c)
    (handle : o.object ≡ c.next_handle) (at_s : t0.space_id ≡ s)
    (same_object : t0.object ≡ o.object)
    (on_time : epoch + t0.due ≡ o.overlay.ends_at + delay_overlay_grace_seconds * second)
    (free : get s c.delay_overlay_cancels ≡ none) where
  lookup-new :
      (k : ℕ) → k < c.next_handle → lookup k (installed_in c s o t0).timers ≡ lookup k c.timers
  lookup-new k below =
      lookup-insert o.object k t0 c.timers
      ∙ rw (unequal_numbers o.object k (λ e. ground (arith, e, handle, below))) refl

  new_or_kept :
      (k : ℕ) (t : Timer)
      → lookup k (installed_in c s o t0).timers ≡ some t
      → ((k ≡ o.object) × (t ≡ t0)) ⊎ (lookup k c.timers ≡ some t)
  new_or_kept k t e = elim (Bool-cases (o.object == k)) [
    | inl same ↦ inl (
      ground (arith, same),
      some_inj (sym e ∙ lookup-insert o.object k t0 c.timers ∙ rw same refl),
    )
    | inr apart ↦ inr (sym (lookup-insert o.object k t0 c.timers ∙ rw apart refl) ∙ e)
  ]

  install-IsTimed : IsTimed epoch (installed_in c s o t0)
  install-IsTimed = record {
    has_timer = λ t p e. elim (texts-cases s t) [
      | inl h ↦
          let one : o ≡ p = some_inj (
            sym (get-set_same s o c.delay_overlays)
            ∙ ap (λ r. get r (installed_in c s o t0).delay_overlays) h
            ∙ e) in
          let found : lookup p.object (installed_in c s o t0).timers ≡ some t0 =
            lookup-insert o.object p.object t0 c.timers
            ∙ rw (ap (λ x. x.object) (sym one)) (ground arith) in
          (
            t0,
            ap (λ r. get r (installed_in c s o t0).delay_overlay_cancels) (sym h)
                ∙ get-set_same s o.object c.delay_overlay_cancels
                ∙ ap (λ x. some x.object) one,
            found,
            at_s ∙ h,
            same_object ∙ ap (λ x. x.object) one,
            on_time ∙ ap (λ x. x.overlay.ends_at + delay_overlay_grace_seconds * second) one,
          )
      | inr h ↦
          let (timer, cancel, found, at_t, same, due) =
            w.has_timer t p (sym (get-set_other s t o c.delay_overlays h) ∙ e) in
          (
            timer,
            get-set_other s t o.object c.delay_overlay_cancels h ∙ cancel,
            lookup-new p.object (w.fresh p.object timer found) ∙ found,
            at_t,
            same,
            due,
          )
    ];
    handles = λ t k e. elim (texts-cases s t) [
      | inl h ↦ (
        o,
        ap (λ r. get r (installed_in c s o t0).delay_overlays) (sym h)
            ∙ get-set_same s o c.delay_overlays,
        some_inj (
            sym (get-set_same s o.object c.delay_overlay_cancels)
            ∙ ap (λ r. get r (installed_in c s o t0).delay_overlay_cancels) h
            ∙ e),
      )
      | inr h ↦
          let (p, f, same) =
            w.handles t k (sym (get-set_other s t o.object c.delay_overlay_cancels h) ∙ e) in
          (p, get-set_other s t o c.delay_overlays h ∙ f, same)
    ];
    owned = λ k t e. elim (new_or_kept k t e) [
      | inl (same, new) ↦
          ap (λ r. get r.space_id (installed_in c s o t0).delay_overlay_cancels) new
          ∙ ap (λ r. get r (installed_in c s o t0).delay_overlay_cancels) at_s
          ∙ get-set_same s o.object c.delay_overlay_cancels
          ∙ ap (λ x. some x) (sym same)
      | inr kept ↦
          let owner = w.owned k t kept in
          get-set_other s t.space_id o.object c.delay_overlay_cancels
            (λ h. none_not_some (sym free ∙ ap (λ r. get r c.delay_overlay_cancels) h ∙ owner))
          ∙ owner
    ];
    fresh = λ k t e. elim (new_or_kept k t e) [
      | inl (same, new) ↦ ground (arith, same, handle)
      | inr kept ↦ ground (arith, w.fresh k t kept)
    ];
  }

-- Two states that read alike are timed alike.
pub IsTimed-alike :
    (epoch : ℕ) (c d : Coordinator)
    → ((t : Text) → get t d.delay_overlays ≡ get t c.delay_overlays)
    → ((t : Text) → get t d.delay_overlay_cancels ≡ get t c.delay_overlay_cancels)
    → ((k : ℕ) → lookup k d.timers ≡ lookup k c.timers)
    → d.next_handle ≡ c.next_handle
    → IsTimed epoch c
    → IsTimed epoch d
IsTimed-alike epoch c d overlays cancels timers next w = record {
  has_timer = λ t o e.
      let (timer, cancel, found, at_t, same, due) = w.has_timer t o (sym (overlays t) ∙ e) in
      (timer, cancels t ∙ cancel, timers o.object ∙ found, at_t, same, due);
  handles =
      λ t k e. let (o, f, same) = w.handles t k (sym (cancels t) ∙ e) in (o, overlays t ∙ f, same);
  owned = λ k t e. cancels t.space_id ∙ w.owned k t (sym (timers k) ∙ e);
  fresh = λ k t e. ground (arith, w.fresh k t (sym (timers k) ∙ e), next);
}

pub notify-IsTimed : (epoch : ℕ) (c : Coordinator) → IsTimed epoch c → IsTimed epoch (notify c)
notify-IsTimed epoch c w =
    IsTimed-alike epoch c (notify c) (λ t. refl) (λ t. refl) (λ k. refl) refl w

set-pop {ℓ} :
    {V : Type ℓ} (s t : Text) (v : V) (m : List (Text × V))
    → get t (set s v m) ≡ get t (set s v (pop s m))
set-pop s t v m = elim (texts-cases s t) [
  | inl h ↦
      ap (λ r. get r (set s v m)) (sym h)
      ∙ get-set_same s v m
      ∙ sym (get-set_same s v (pop s m))
      ∙ ap (λ r. get r (set s v (pop s m))) h
  | inr h ↦
      get-set_other s t v m h ∙ sym (get-pop_other s t m h) ∙ sym (get-set_other s t v (pop s m) h)
]

pub set_delay_overlay-IsTimed :
    (epoch loop_now : ℕ) (c : Coordinator) (s : Text) (kind : DelayKind) (seconds : ℕ)
    (from_hub : Bool)
    → IsTimed epoch c
    → IsTimed epoch (set_delay_overlay (clock_at epoch loop_now) s kind seconds from_hub c)
unfolding set_delay_overlay cancel_delay_timer clear_delay_overlay
set_delay_overlay-IsTimed epoch loop_now c s kind seconds from_hub w =
    let clock = clock_at epoch loop_now in
    let cleared = (clear_delay_overlay s c).1 in
    let o : Installed = record {
      object = c.next_handle;
      overlay = record { kind = kind; ends_at = clock.utc + seconds * second; from_hub = from_hub };
    } in
    let timer : Timer = record {
      due = clock.loop + (seconds + delay_overlay_grace_seconds) * second;
      space_id = s;
      object = c.next_handle;
    } in
    IsTimed-alike epoch (installed_in cleared s o timer) _ (λ t. set-pop s t o c.delay_overlays)
      (λ t. refl) (λ k. refl) refl
      (install-IsTimed epoch cleared s o timer (clear_delay_overlay-IsTimed epoch c s w) refl refl
        refl (omega arith) (get-pop_same s c.delay_overlay_cancels))

pub expire_delay_overlay-IsTimed :
    (epoch : ℕ) (c : Coordinator) (s : Text) (object : ℕ)
    → IsTimed epoch c
    → IsTimed epoch (expire_delay_overlay s object c)
unfolding expire_delay_overlay
expire_delay_overlay-IsTimed epoch c s object w =
    elim (Bool-cases (is_object object (get s c.delay_overlays))) [
      | inl e ↦ rw e (
          notify-IsTimed epoch (clear_delay_overlay s c).1
            (clear_delay_overlay-IsTimed epoch c s w))
      | inr e ↦ rw e w
    ]
