-- ===== src/Server/Answered.antt =====
-- The responses that a run gives, against those that its messages ask for.
use mathlib.Core.List.Perm
use mathlib.Core.List.{perm_append_comm}
use capnp_ls.Prelude.{
  [], ◌∷◌, ◌++◌, append_assoc, false, List, Perm, ◌≡◌, sym, ap, ◌∙◌, subst, arith,
}
use capnp_ls.LspMessageHandler.Handlers.{World}
use capnp_ls.Server.Tasks.{Reply, begin_message, turn}
use capnp_ls.Server.Loop.{
  Server, added, turned, pending, logged, signalled, left, Step, receives, turns, logs, interrupted,
  returns, Reach, here, next,
}
use capnp_ls.Server.Requests.{waiting, given, requests, waiting-append, begin-requests, turn-given}

-- A part in the middle moves to the front.
middle-Perm : {A : Type 0} (xs ys zs : List A) → Perm (xs ++ (ys ++ zs)) (ys ++ (xs ++ zs))
middle-Perm xs ys zs =
    subst (λ l. Perm l (ys ++ (xs ++ zs))) (append_assoc xs ys zs)
      (subst (λ l. Perm ((xs ++ ys) ++ zs) l) (append_assoc ys xs zs)
        (Perm.append_right zs (perm_append_comm xs ys)))

module _ {Reader : Type 0} (world : World Reader) where
  unfoldable pub step_asked : {s t : Server} → Step world s t → List Reply
  step_asked {s} (receives message e) = requests world message s.handler
  step_asked _ = []

  unfoldable pub step_answered : {s t : Server} → Step world s t → List Reply
  step_answered (turns before after task r e f) = given task
  step_answered _ = []

  -- The responses that the messages of a run ask for, in the order of the messages.
  unfoldable pub asked : {s t : Server} → Reach world s t → List Reply
  asked here = []
  asked (next r step) = asked r ++ step_asked step

  -- Those that its turns give.
  unfoldable pub answered : {s t : Server} → Reach world s t → List Reply
  answered here = []
  answered (next r step) = answered r ++ step_answered step

  step-Perm :
      {s t : Server} (step : Step world s t)
      → t.exited ≡ false
      → Perm (step_asked step ++ waiting s.tasks) (step_answered step ++ waiting t.tasks)
  unfolding added turned logged signalled left step_asked step_answered
  step-Perm {s} (receives message e) goes_on =
      subst (λ l. Perm (requests world message s.handler ++ waiting s.tasks) l)
        (ap (λ l. waiting s.tasks ++ l) (sym (begin-requests world message s.handler))
          ∙ sym (waiting-append s.tasks (pending (begin_message world message s.handler).1)))
        (perm_append_comm (requests world message s.handler) (waiting s.tasks))
  step-Perm {s} (turns before after task r e f) goes_on =
      let rest = waiting (pending (turn world r task s.handler).1) in
      let owing : waiting s.tasks ≡ waiting before ++ (given task ++ (rest ++ waiting after)) =
        ap waiting f
        ∙ waiting-append before (task ∷ after)
        ∙ ap (λ l. waiting before ++ (l ++ waiting after)) (sym (turn-given world r task s.handler))
        ∙ ap (λ l. waiting before ++ l) (append_assoc (given task) rest (waiting after)) in
      let left_over : waiting (before ++ (pending (turn world r task s.handler).1 ++ after))
          ≡ waiting before ++ (rest ++ waiting after) =
        waiting-append before (pending (turn world r task s.handler).1 ++ after)
        ∙ ap (λ l. waiting before ++ l)
            (waiting-append (pending (turn world r task s.handler).1) after) in
      subst
        (λ l.
          Perm l
            (given task ++ waiting (before ++ (pending (turn world r task s.handler).1 ++ after))))
        (sym owing)
        (subst
          (λ l. Perm (waiting before ++ (given task ++ (rest ++ waiting after))) (given task ++ l))
          (sym left_over) (middle-Perm (waiting before) (given task) (rest ++ waiting after)))
  step-Perm (logs severity file line message text e f) goes_on = Perm.rfl
  step-Perm (interrupted e) goes_on = Perm.rfl
  step-Perm (returns e f) goes_on = ground (arith, goes_on)

  step-running : {s t : Server} → Step world s t → s.exited ≡ false
  step-running (receives message e) = e
  step-running (turns before after task r e f) = e
  step-running (logs severity file line message text e f) = e
  step-running (interrupted e) = e
  step-running (returns e f) = e

  pub reach-Perm :
      {s t : Server} (r : Reach world s t)
      → t.exited ≡ false
      → Perm (asked r ++ waiting s.tasks) (answered r ++ waiting t.tasks)
  unfolding asked answered
  reach-Perm here goes_on = Perm.rfl
  reach-Perm {s} {t} (next {t = u} r step) goes_on =
      let before = reach-Perm r (step-running step) in
      let more = step-Perm step goes_on in
      let moved =
        Perm.trans
          (subst (λ l. Perm l (step_asked step ++ (asked r ++ waiting s.tasks)))
            (sym (append_assoc (asked r) (step_asked step) (waiting s.tasks)))
            (middle-Perm (asked r) (step_asked step) (waiting s.tasks)))
          (Perm.append_left (step_asked step) before) in
      let back =
        subst (λ l. Perm (answered r ++ (step_asked step ++ waiting u.tasks)) l)
          (sym (append_assoc (answered r) (step_answered step) (waiting t.tasks)))
          (Perm.append_left (answered r) more) in
      Perm.trans moved
        (Perm.trans (middle-Perm (step_asked step) (answered r) (waiting u.tasks)) back)
