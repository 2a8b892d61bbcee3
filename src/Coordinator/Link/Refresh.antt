-- ===== src/Coordinator/Link/Refresh.antt =====
-- The limit on manual refreshes in coordinator.py.
use aegis_hass.Base.{
  ℕ, ◌+◌, ◌-◌, ◌≤◌, ◌≡◌, ◌≢◌, refl, sym, ap, ◌∙◌, Bool, true, false, not, ◌&&◌, ltb, by_if,
  Bool-cases, Option, some, List, [], ◌∷◌, inl, inr, arith, Result, ok, err,
}
use aegis_hass.Base.Text.{Text}
use aegis_hass.Base.TextMap.{get, set, has_text, unequal_texts, get-set_same, get-set_other}
use aegis_hass.Coordinator.Models.{Space}
use aegis_hass.Coordinator.Link.{
  manual_refresh_interval, Link, RefreshError, or_zero, request_manual_refresh, live_hubs,
  keep_hubs, prune_manual_refresh, schedule_reconnect, handle_hts_disconnect, hts_reconnect_due,
  clear_hts_chronic_failure,
}

err_not_ok :
    {l : Link} {x : RefreshError} → ◌≡◌ {A = Result RefreshError Link} (err x) (ok l) → true ≡ false
err_not_ok e = ap (λ r. elim r [ err y ↦ true | ok y ↦ false ]) e

stored_refresh :
    {l d : Link}
    → ◌≡◌ {A = Result RefreshError Link} (ok l) (ok d)
    → l.last_manual_refresh ≡ d.last_manual_refresh
stored_refresh {l = l} e =
    ap (λ r. elim r [ ok y ↦ y.last_manual_refresh | err y ↦ l.last_manual_refresh ]) e

-- What an accepted request says of the time since the last one, and what it stores.
accepted :
    (now : ℕ) (hub_id : Text) (l d : Link)
    → request_manual_refresh now hub_id l ≡ ok d
    → (or_zero (get hub_id l.last_manual_refresh) + manual_refresh_interval ≤ now)
      × (set hub_id now l.last_manual_refresh ≡ d.last_manual_refresh)
unfolding request_manual_refresh
accepted now hub_id l d e = elim (Bool-cases l.is_connected) [
  | inr off ↦ absurd (let k = err_not_ok (rw off at e) in cc)
  | inl on ↦
      let elapsed = now - or_zero (get hub_id l.last_manual_refresh) in
      elim (Bool-cases (ltb elapsed manual_refresh_interval)) [
        | inl early ↦ absurd (let k = err_not_ok (rw (on, early) at e) in cc)
        | inr late ↦ (ground (arith, late), stored_refresh (rw (on, late) at e))
      ]
]

-- What can happen to the connection's attributes between two requests for a hub: refreshes of other
-- hubs, a pruning while a space of the hub is tracked, and whatever the connection itself goes through.
-- No constructor is a request for the hub that is accepted, or a pruning that forgets the hub.
pub data Between (hub_id : Text) : Link → Link → Type 0 where
  nothing : {l : Link} → Between hub_id l l
  then_other :
      {l d e : Link} (now : ℕ) (other : Text)
      → Between hub_id l d
      → other ≢ hub_id
      → request_manual_refresh now other d ≡ ok e
      → Between hub_id l e
  then_pruned :
      {l d : Link} (spaces : List (Text × Space))
      → Between hub_id l d
      → has_text hub_id (live_hubs spaces) ≡ true
      → Between hub_id l (prune_manual_refresh spaces d)
  then_dropped :
      {l d : Link} (now : ℕ) (reconnect : Bool)
      → Between hub_id l d
      → Between hub_id l (handle_hts_disconnect now reconnect d)
  then_due : {l d : Link} → Between hub_id l d → Between hub_id l (hts_reconnect_due d)
  then_connected :
      {l d : Link} (now : ℕ)
      → Between hub_id l d
      → Between hub_id l (record d { is_connected = true; connected_at = some now })
  then_cleared : {l d : Link} → Between hub_id l d → Between hub_id l (clear_hts_chronic_failure d)

abbrev last_of : Text → Link → Option ℕ
last_of hub_id l = get hub_id l.last_manual_refresh

get-keep_hubs :
    (hub_id : Text) (hubs : List Text) (entries : List (Text × ℕ))
    → has_text hub_id hubs ≡ true
    → get hub_id (keep_hubs hubs entries) ≡ get hub_id entries
unfolding keep_hubs get
get-keep_hubs hub_id hubs [] live = refl
get-keep_hubs hub_id hubs ((key, last) ∷ rest) live =
    let later = get-keep_hubs hub_id hubs rest live in
    elim (Bool-cases (has_text key hubs)) [
      | inl kept ↦ rw (kept, later) refl
      | inr gone ↦ rw gone (
          later
          ∙ sym (
              rw
                (unequal_texts key hub_id
                  (λ q. let there : has_text key hubs ≡ true = rw q live in cc))
                refl))
    ]

handle_hts_disconnect-last :
    (hub_id : Text) (now : ℕ) (reconnect : Bool) (l : Link)
    → last_of hub_id (handle_hts_disconnect now reconnect l) ≡ last_of hub_id l
unfolding handle_hts_disconnect schedule_reconnect
handle_hts_disconnect-last hub_id now reconnect l =
    by_if (λ (d : Link). last_of hub_id d ≡ last_of hub_id l) (reconnect && not l.reconnect_pending)
      _ _ (λ _. refl) (λ _. refl)

Between-last :
    (hub_id : Text) (l e : Link) → Between hub_id l e → last_of hub_id e ≡ last_of hub_id l
unfolding prune_manual_refresh hts_reconnect_due clear_hts_chronic_failure
Between-last hub_id l e nothing = refl
Between-last hub_id l e (then_other {d = d} now other earlier apart done) =
    let (_, stored) = accepted now other d e done in
    ap (λ m. get hub_id m) (sym stored)
    ∙ get-set_other other hub_id now d.last_manual_refresh apart
    ∙ Between-last hub_id l d earlier
Between-last hub_id l e (then_pruned {d = d} spaces earlier live) =
    get-keep_hubs hub_id (live_hubs spaces) d.last_manual_refresh live
    ∙ Between-last hub_id l d earlier
Between-last hub_id l e (then_dropped {d = d} now reconnect earlier) =
    handle_hts_disconnect-last hub_id now reconnect d ∙ Between-last hub_id l d earlier
Between-last hub_id l e (then_due {d = d} earlier) = Between-last hub_id l d earlier
Between-last hub_id l e (then_connected {d = d} now earlier) = Between-last hub_id l d earlier
Between-last hub_id l e (then_cleared {d = d} earlier) = Between-last hub_id l d earlier

-- Manual refreshes of a hub keep their distance: if between an accepted request and another accepted
-- one for the same hub there are only refreshes of other hubs, drops, reconnects and prunings while a
-- space of the hub is tracked, a minute at least lies between the two. A pruning while the hub has no
-- tracked space forgets the first request, and is left out.
pub request_manual_refresh-apart :
    (now later : ℕ) (hub_id : Text) (l d e f : Link)
    → request_manual_refresh now hub_id l ≡ ok d
    → Between hub_id d e
    → request_manual_refresh later hub_id e ≡ ok f
    → now + manual_refresh_interval ≤ later
request_manual_refresh-apart now later hub_id l d e f first between second =
    let (_, stored) = accepted now hub_id l d first in
    let (apart, _) = accepted later hub_id e f second in
    let last : get hub_id e.last_manual_refresh ≡ some now =
      Between-last hub_id d e between
      ∙ ap (λ m. get hub_id m) (sym stored)
      ∙ get-set_same hub_id now l.last_manual_refresh in
    omega (arith, apart, ap or_zero last)
