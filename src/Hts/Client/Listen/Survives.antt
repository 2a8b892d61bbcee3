-- ===== src/Hts/Client/Listen/Survives.antt =====
-- What `listen` of api/hts/client.py does with time-outs, bad frames and acknowledgements.
use aegis_hass.Base.{
  ℕ, zero, suc, ◌≤◌, ◌≡◌, ◌≢◌, refl, sym, ap, ◌∙◌, Bool, Bool-cases, not, true, false,
  if◌then◌else◌, List, [], ◌∷◌, ◌++◌, map, All, append-nil, is_nonempty, inl, inr, arith,
}
use aegis_hass.Hts.Messages.{MsgType, HtsMessage, is_no_ack}
use aegis_hass.Hts.Client.Listen.{
  handler_returned, handler_raised, is_raised, handler_error, Listened, Inbound, received,
  read_timeout, connection_error, undecodable, Action, send_ack, call_update, call_registration,
  call_answer, call_event, too_many_timeouts, listening, is_type, needs_ack, dispatch, on_message,
  then_listen, listen,
}

abbrev pub messages : List Inbound → List HtsMessage
messages [] = []
messages (received msg outcome ∷ rest) = msg ∷ messages rest
messages (read_timeout ∷ rest) = messages rest
messages (connection_error ∷ rest) = messages rest
messages (undecodable ∷ rest) = messages rest

abbrev pub is_timeout : Inbound → Bool
is_timeout read_timeout = true
is_timeout (received msg outcome) = false
is_timeout connection_error = false
is_timeout undecodable = false

-- No three time-outs stand next to one another.
abbrev pub IsLively : List Inbound → Type 0
IsLively xs =
    (front : List Inbound) (rest : List Inbound)
    → xs ≢ front ++ (read_timeout ∷ read_timeout ∷ read_timeout ∷ rest)

-- The connection is there, and a message's handler returns, if it has one.
abbrev pub is_up : Inbound → Bool
is_up read_timeout = true
is_up undecodable = true
is_up (received msg handler_returned) = true
is_up (received msg handler_raised) = not (is_nonempty (dispatch msg))
is_up connection_error = false

abbrev pub IsUp : Inbound → Type 0
IsUp x = is_up x ≡ true

abbrev timeouts_before : ℕ → List Inbound → List Inbound
timeouts_before zero xs = xs
timeouts_before (suc n) xs = read_timeout ∷ timeouts_before n xs

before_append :
    (n : ℕ) (xs ys : List Inbound) → timeouts_before n (xs ++ ys) ≡ timeouts_before n xs ++ ys
before_append zero xs ys = refl
before_append (suc n) xs ys = ap (λ t. read_timeout ∷ t) (before_append n xs ys)

before_suc :
    (n : ℕ) (xs : List Inbound) → timeouts_before n (read_timeout ∷ xs) ≡ timeouts_before (suc n) xs
before_suc zero xs = refl
before_suc (suc n) xs = ap (λ t. read_timeout ∷ t) (before_suc n xs)

IsLively-tail :
    (n : ℕ) (x : Inbound) (xs : List Inbound) → IsLively (timeouts_before n (x ∷ xs)) → IsLively xs
IsLively-tail n x xs h = λ front rest e.
    h (timeouts_before n (x ∷ front)) rest
      (ap (λ t. timeouts_before n (x ∷ t)) e ∙ before_append n (x ∷ front) _)

-- The rounds of `xs`, and then what the loop does with `ys`.
abbrev then_rest : List Inbound → Listened → Listened
then_rest xs (rounds, ending) = (map on_message (messages xs) ++ rounds, ending)

listen-lively :
    (n : ℕ) (xs ys : List Inbound) (end : Listened)
    → n ≤ 2
    → IsLively (timeouts_before n xs)
    → All IsUp xs
    → ((m : ℕ) → listen m ys ≡ end)
    → listen n (xs ++ ys) ≡ then_rest xs end
unfolding listen is_raised
listen-lively n [] ys end hn h up e = e n
listen-lively n (received msg handler_returned ∷ xs) ys end hn h (_, up) e =
    ap (then_listen (on_message msg))
      (listen-lively 0 xs ys end (omega arith) (IsLively-tail n _ xs h) up e)
listen-lively n (received msg handler_raised ∷ xs) ys end hn h (ux, up) e =
    elim (Bool-cases (is_nonempty (dispatch msg))) [
      | inl some_handler ↦ absurd (let k = rw some_handler at ux in cc)
      | inr no_handler ↦ rw no_handler (
          ap (then_listen (on_message msg))
            (listen-lively 0 xs ys end (omega arith) (IsLively-tail n _ xs h) up e))
    ]
listen-lively n (undecodable ∷ xs) ys end hn h (_, up) e =
    listen-lively 0 xs ys end (omega arith) (IsLively-tail n _ xs h) up e
listen-lively n (connection_error ∷ xs) ys end hn h (ux, up) e = cc
listen-lively zero (read_timeout ∷ xs) ys end hn h (_, up) e =
    listen-lively 1 xs ys end (omega arith) h up e
listen-lively (suc zero) (read_timeout ∷ xs) ys end hn h (_, up) e =
    listen-lively 2 xs ys end (omega arith) h up e
listen-lively (suc (suc n)) (read_timeout ∷ xs) ys end hn h (_, up) e =
    absurd
      (h [] (timeouts_before n xs) (ap (λ t. read_timeout ∷ read_timeout ∷ t) (before_suc n xs)))

-- As long as no connection error comes, no three time-outs follow directly one on another and every
-- handler that is called returns, the loop goes on, and every message is handled in its turn:
-- undecodable frames and fewer time-outs cost nothing.
pub listen_survives :
    (xs : List Inbound)
    → IsLively xs
    → All IsUp xs
    → listen 0 xs ≡ (map on_message (messages xs), listening)
unfolding listen
listen_survives xs h up =
    ap (listen 0) (sym (append-nil xs))
    ∙ listen-lively 0 xs [] ([], listening) (omega arith) h up (λ m. refl)
    ∙ ap (λ t. (t, listening)) (append-nil _)

-- An exception that leaves a handler ends the loop: where the connection was up and every handler
-- returned before it, the message is acknowledged and handed on like those before it, and nothing of
-- what comes after it is read. The message must be of a type that has a handler.
pub listen_ends_on_raise :
    (xs rest : List Inbound) (msg : HtsMessage)
    → IsLively xs
    → All IsUp xs
    → dispatch msg ≢ []
    → listen 0 (xs ++ (received msg handler_raised ∷ rest))
      ≡ (map on_message (messages xs) ++ (on_message msg ∷ []), handler_error)
unfolding listen is_raised
listen_ends_on_raise xs rest msg h up handled =
    listen-lively 0 xs (received msg handler_raised ∷ rest) (on_message msg ∷ [], handler_error)
      (omega arith) h up (λ m. rw (called (dispatch msg) handled) refl)
  where
    called : (actions : List Action) → actions ≢ [] → is_nonempty actions ≡ true
    called [] some_action = absurd (some_action refl)
    called (a ∷ actions) some_action = refl

StopsAt : List Inbound → Type 0
StopsAt xs =
    (front : List Inbound) × (rest : List Inbound) × (xs
      ≡ front ++ (read_timeout ∷ read_timeout ∷ read_timeout ∷ rest))

stops_later :
    (n : ℕ) (x : Inbound) (xs : List Inbound) → StopsAt xs → StopsAt (timeouts_before n (x ∷ xs))
unfolding StopsAt
stops_later n x xs (front, rest, e) = (
  timeouts_before n (x ∷ front),
  rest,
  ap (λ t. timeouts_before n (x ∷ t)) e ∙ before_append n (x ∷ front) _,
)

listen-stops :
    (n : ℕ) (xs : List Inbound)
    → n ≤ 2
    → (listen n xs).1 ≡ too_many_timeouts
    → StopsAt (timeouts_before n xs)
unfolding listen StopsAt
listen-stops n [] hn e = cc
listen-stops n (received msg outcome ∷ xs) hn e = elim (Bool-cases (is_raised msg outcome)) [
  | inl raised ↦ absurd (let k = rw raised at e in cc)
  | inr calm ↦ stops_later n _ xs (listen-stops 0 xs (omega arith) (rw calm at e))
]
listen-stops n (undecodable ∷ xs) hn e = stops_later n _ xs (listen-stops 0 xs (omega arith) e)
listen-stops n (connection_error ∷ xs) hn e = cc
listen-stops zero (read_timeout ∷ xs) hn e = listen-stops 1 xs (omega arith) e
listen-stops (suc zero) (read_timeout ∷ xs) hn e = listen-stops 2 xs (omega arith) e
listen-stops (suc (suc zero)) (read_timeout ∷ xs) hn e = ([], xs, refl)
listen-stops (suc (suc (suc n))) (read_timeout ∷ xs) hn e = absurd (omega arith)

-- The loop ends on time-outs only if three of them follow directly one on another.
pub listen_stops_on_three :
    (xs : List Inbound)
    → (listen 0 xs).1 ≡ too_many_timeouts
    → (front : List Inbound) × (rest : List Inbound) × (xs
        ≡ front ++ (read_timeout ∷ read_timeout ∷ read_timeout ∷ rest))
unfolding StopsAt
listen_stops_on_three xs e = listen-stops 0 xs (omega arith) e

-- The messages of a round that are acknowledged.
abbrev pub acked : List Action → List HtsMessage
acked [] = []
acked (send_ack msg ∷ actions) = msg ∷ acked actions
acked (call_update msg ∷ actions) = acked actions
acked (call_registration msg ∷ actions) = acked actions
acked (call_answer msg ∷ actions) = acked actions
acked (call_event msg ∷ actions) = acked actions

-- A message is acknowledged once, or not at all if it asks for no ACK or is one itself, whatever
-- handler it goes to.
pub acked-on_message :
    (msg : HtsMessage)
    → acked (on_message msg)
      ≡ (if is_no_ack msg then [] else if is_type MsgType.ack msg then [] else msg ∷ [])
unfolding on_message needs_ack dispatch
acked-on_message msg = ground arith
