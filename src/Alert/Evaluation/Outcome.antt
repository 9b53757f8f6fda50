-- ===== src/Alert/Evaluation/Outcome.antt =====
-- When sending the notifications is an error.
use connaisseur.Prelude.{
  ℕ, ◌+◌, ◌≡◌, refl, sym, ap, subst, inl, inr, Bool, true, false, Option, none, some, List, [], ◌∷◌,
  ◌++◌, arith, Text, lit, if◌then◌else◌, length, is_empty, In, Result, ok, err, panic, ok-injective,
  In-parts, length-parts,
}
use connaisseur.Alert.Evaluation.{
  NotificationValues, Sender, Config, Selected, select_receivers, with_cluster, Arrival, deadline,
  message, wait, notified, outcome, eval_and_send_notifications, message_of, IsRun, sends,
}

abbrev pub Succeeds : NotificationValues → Sender → Type 0
Succeeds opts s = s.fail_on_error ≡ true → s.send opts ≡ none

message_of-Succeeds :
    (opts : NotificationValues) (s : Sender) → message_of opts s ≡ none → Succeeds opts s
unfolding message_of
message_of-Succeeds opts s h = λ f. ground arith

record Sent (opts : NotificationValues) (senders : List Sender) (m : Option Text)
    (rest : List Arrival) : Type 0 where
  before : List Sender
  sender : Sender
  after : List Sender
  its_message : m ≡ message_of opts sender
  parts : senders ≡ before ++ sender ∷ after
  others : IsRun opts (before ++ after) rest

IsRun-Sent :
    {opts : NotificationValues} {senders : List Sender} {m : Option Text} {rest : List Arrival}
    → IsRun opts senders (message m ∷ rest)
    → Sent opts senders m rest
IsRun-Sent (sends before s after m e p r) = record {
  before = before;
  sender = s;
  after = after;
  its_message = e;
  parts = p;
  others = r;
}

wait-Succeeds :
    (n : ℕ) (stream : Text) (i : ℕ) (recs senders : List Sender) (arrivals : List Arrival)
    (opts : NotificationValues)
    → length recs ≡ length senders
    → IsRun opts senders arrivals
    → wait n stream i recs arrivals ≡ none
    → (s : Sender) → In s senders
    → Succeeds opts s
unfolding wait
wait-Succeeds n stream i [] [] arrivals opts l r h s m = absurd m
wait-Succeeds n stream i [] (t ∷ senders) arrivals opts l r h s m = absurd (omega arith)
wait-Succeeds n stream i (rec ∷ recs) senders [] opts l r h s m = absurd (ground arith)
wait-Succeeds n stream i (rec ∷ recs) senders (deadline ∷ rest) opts l r h s m =
    absurd (ground arith)
wait-Succeeds n stream i (rec ∷ recs) senders (message (some e) ∷ rest) opts l r h s m =
    absurd (ground arith)
wait-Succeeds n stream i (rec ∷ recs) senders (message none ∷ rest) opts l r h s m =
    let sent = IsRun-Sent r in
    let shorter : length recs ≡ length (sent.before ++ sent.after) =
      omega (arith, ap length sent.parts, length-parts sent.sender sent.before sent.after) in
    elim (In-parts s sent.sender sent.before sent.after (subst (In s) sent.parts m)) [
      | inl e ↦
          subst (Succeeds opts) (sym e)
            (message_of-Succeeds opts sent.sender (sym sent.its_message))
      | inr i' ↦
          wait-Succeeds n stream (i + 1) recs (sent.before ++ sent.after) rest opts shorter
            sent.others h s i'
    ]

abbrev pub KeepsReceivers : Config → Config → Type 0
KeepsReceivers a b = (b.admit_requests ≡ a.admit_requests) × (b.reject_requests ≡ a.reject_requests)

with_cluster-KeepsReceivers : (a : Config) → KeepsReceivers a (with_cluster a)
with_cluster-KeepsReceivers a = of_test (is_empty a.cluster_id)
  where
    of_test :
        (b : Bool)
        → KeepsReceivers a (if b then record a { cluster_id = lit "not specified" } else a)
    of_test true = (refl, refl)
    of_test false = (refl, refl)

-- Let the arrivals be the deadline or messages of the selected receivers, each at most once. Where no
-- error is returned, receivers were selected, and every one of them that has FailOnError set sent its
-- notification with no error. The configuration keeps its receivers.
pub eval_and_send_notifications-Succeeds :
    (a : Config) (opts : NotificationValues)
    (arrive : List Sender → NotificationValues → List Arrival)
    → ((s : Selected)
        → IsRun (notified a opts s) s.receivers (arrive s.receivers (notified a opts s)))
    → (eval_and_send_notifications a opts arrive).0 ≡ ok none
    → ((s : Selected) × (select_receivers a opts ≡ ok s)
        × ((r : Sender) → In r s.receivers → Succeeds (notified a opts s) r))
      × KeepsReceivers a (eval_and_send_notifications a opts arrive).1
unfolding eval_and_send_notifications
eval_and_send_notifications-Succeeds a opts arrive run h =
    (go (select_receivers a opts) refl h, with_cluster-KeepsReceivers a)
  where
    go :
        (r : Result Selected)
        → select_receivers a opts ≡ r
        → outcome a opts arrive r ≡ ok none
        → (s : Selected) × (select_receivers a opts ≡ ok s)
          × ((r : Sender) → In r s.receivers → Succeeds (notified a opts s) r)
    go (ok s) e h = (
      s,
      e,
      wait-Succeeds (length s.receivers) s.stream 0 s.receivers s.receivers
          (arrive s.receivers (notified a opts s)) (notified a opts s) refl (run s)
          (ok-injective h),
    )
    go (err m) e h = absurd (cc (ok-injective h))
    go panic e h = absurd (ground arith)
