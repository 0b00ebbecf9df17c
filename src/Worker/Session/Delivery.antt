-- ===== src/Worker/Session/Delivery.antt =====
-- Every item that the task injects is returned to the agent once, in order.
use agent_rl.Common.{
  String, ℕ, ◌+◌, ◌≡◌, ◌≢◌, ◌⊎◌, ◌∙◌, inl, inr, refl, ap, Bool, true, false, some, List, [], ◌∷◌,
  ◌++◌, arith, append_assoc, append-nil, length, drop, if◌then◌else◌,
}
use agent_rl.Worker.Session.{
  HistoryItem, normal, TaskOutput, SessionController, Session, agent_send, agent_receive,
  action_begin, answered, action_end, env_finish,
}
use agent_rl.Worker.Session.Protocol.{
  EnvPc, working, acting, ended, Exchange, fresh, agent_waits, Step, injects, acts, resumes,
  finishes, requests, responds, Reach, here, next,
}

drop-append : (xs ys : List HistoryItem) → drop (length xs) (xs ++ ys) ≡ ys
drop-append [] ys = refl
drop-append (x ∷ xs) ys = drop-append xs ys

abbrev env_holds : EnvPc → Bool
env_holds acting = true
env_holds _ = false

EnvPc-cases : (e : EnvPc) → (e ≡ working) ⊎ ((e ≡ acting) ⊎ (e ≡ ended))
EnvPc-cases working = inl refl
EnvPc-cases acting = inr (inl refl)
EnvPc-cases ended = inr (inr refl)

record Inv (x : Exchange) : Type 0 where
  lock : x.session.controller.env_lock ≡ env_holds x.env
  partial : x.session.controller.full_history ≡ false
  -- how often each semaphore is up
  at_work :
      x.env ≡ working
      → (agent_waits x ≡ true)
        × (x.session.controller.agent_signal ≡ 0)
        × (x.session.controller.env_signal ≡ 0)
  acting_waits :
      x.env ≡ acting
      → agent_waits x ≡ true
      → x.session.controller.agent_signal + x.session.controller.env_signal ≡ 1
  acting_free :
      x.env ≡ acting
      → agent_waits x ≡ false
      → (x.session.controller.agent_signal ≡ 0) × (x.session.controller.env_signal ≡ 0)
  at_end : x.env ≡ ended → x.session.controller.agent_signal ≡ (if agent_waits x then 1 else 0)
  -- what is where
  total : x.injected ≡ x.returned ++ x.unsent
  kept : x.env ≡ working → x.session.history ≡ x.session.controller.env_output.history ++ x.unsent
  shown : x.env ≡ acting → x.session.controller.env_output.history ≡ x.session.history
  up :
      x.env ≢ working
      → x.session.controller.agent_signal ≡ 1
      → fresh x.session.controller.env_output ≡ x.unsent
  down : x.env ≢ working → x.session.controller.agent_signal ≡ 0 → x.unsent ≡ []

module _ {x : Exchange} (v : Inv x) where
  open v use {
    lock, partial, at_work, acting_waits, acting_free, at_end, total, kept, shown, up, down,
  }

  injects-Inv :
      (h new : List HistoryItem)
      → x.env ≡ working
      → h ≡ x.session.history ++ new
      → Inv (record x {
        session = record x.session { history = h };
        injected = x.injected ++ new;
        unsent = x.unsent ++ new;
      })
  injects-Inv h new w e = record {
    lock = lock;
    partial = partial;
    at_work = at_work;
    acting_waits = acting_waits;
    acting_free = acting_free;
    at_end = at_end;
    total = rw total (append_assoc x.returned x.unsent new);
    kept = λ _.
        e
        ∙ ap (λ t. t ++ new) (kept w)
        ∙ append_assoc x.session.controller.env_output.history x.unsent new;
    shown = λ f. cc (w, f);
    up = λ f. absurd (f w);
    down = λ f. absurd (f w);
  }

  handed :
      x.env ≡ working
      → drop (length x.session.controller.env_output.history) x.session.history ≡ x.unsent
  handed w = rw (kept w) (drop-append x.session.controller.env_output.history x.unsent)

  acts-Inv :
      (s : Session)
      → x.env ≡ working
      → action_begin x.session ≡ some s
      → Inv (record x { session = s; env = acting })
  unfolding action_begin
  acts-Inv s w p = record {
    lock = ground (arith, w);
    partial = ground arith;
    at_work = λ f. cc f;
    acting_waits = λ _ g. ground (arith, at_work w);
    acting_free = λ _ g. ground (arith, at_work w);
    at_end = λ f. cc f;
    total = total;
    kept = λ f. cc f;
    shown = λ _. ground arith;
    up = λ _ _. ground (arith, handed w);
    down = λ _ z. ground (arith, at_work w);
  }

  -- A task that resumes was sent an answer, so its own hand-over had been taken.
  answered_signal :
      (s : Session)
      → x.env ≡ acting
      → action_end x.session ≡ some (answered s)
      → x.session.controller.agent_signal ≡ 0
  unfolding action_end
  answered_signal s w p = ground (arith, acting_waits w, acting_free w)

  answered_synced :
      (s : Session)
      → action_end x.session ≡ some (answered s)
      → s.history ≡ s.controller.env_output.history
  unfolding action_end
  answered_synced s p = ground arith

  resumes-Inv :
      (s : Session)
      → x.env ≡ acting
      → action_end x.session ≡ some (answered s)
      → Inv (record x { session = s; env = working })
  unfolding action_end
  resumes-Inv s w p = record {
    lock = ground arith;
    partial = ground arith;
    at_work = λ _. ground (arith, acting_waits w, acting_free w);
    acting_waits = λ f. cc f;
    acting_free = λ f. cc f;
    at_end = λ f. cc f;
    total = total;
    kept = λ _.
        let sent = down (λ (f : x.env ≡ working). cc (w, f)) (answered_signal s w p) in
        rw (sent, append-nil) (answered_synced s p);
    shown = λ f. cc f;
    up = λ f. absurd (f refl);
    down = λ f. absurd (f refl);
  }

  finishes-Inv :
      (o : TaskOutput) (c : SessionController)
      → x.env ≡ working
      → o.history ≡ x.session.history
      → env_finish o x.session.controller ≡ some c
      → Inv (record x { session = record x.session { controller = c }; env = ended })
  unfolding env_finish
  finishes-Inv o c w h p = record {
    lock = ground (arith, w);
    partial = ground arith;
    at_work = λ f. cc f;
    acting_waits = λ f. cc f;
    acting_free = λ f. cc f;
    at_end = λ _. ground (arith, at_work w);
    total = total;
    kept = λ f. cc f;
    shown = λ f. cc f;
    up = λ _ _. ground (arith, handed w);
    down = λ _ z. ground (arith, at_work w);
  }

  requests-Inv :
      (messages : List String) (c : SessionController)
      → x.env ≢ ended
      → agent_send (some (normal messages)) x.session.controller ≡ some c
      → Inv (record x { session = record x.session { controller = c } })
  unfolding agent_send
  requests-Inv messages c w p = record {
    lock = ground arith;
    partial = ground arith;
    at_work = λ f. ground (arith, at_work f);
    acting_waits = λ f g. ground (arith, acting_free f);
    acting_free = λ f g. ground arith;
    at_end = λ f. absurd (w f);
    total = total;
    kept = λ f. ground (arith, at_work f);
    shown = λ f. ground (arith, shown f);
    up = λ f g. ground (arith, up f);
    down = λ f g. ground (arith, down f);
  }

  not_at_work : x.session.controller.agent_signal ≢ 0 → x.env ≢ working
  not_at_work h f = h (at_work f).1

  one_up :
      agent_waits x ≡ true
      → x.session.controller.agent_signal ≢ 0
      → x.session.controller.agent_signal ≡ 1
  one_up w h = elim (EnvPc-cases x.env) [
    | inl f ↦ absurd (h (at_work f).1)
    | inr (inl f) ↦ omega (arith, acting_waits f w)
    | inr (inr f) ↦ ground (arith, at_end f)
  ]

  responds-Inv :
      (o : TaskOutput) (c : SessionController)
      → agent_waits x ≡ true
      → agent_receive x.session.controller ≡ some (o, c)
      → Inv (record x {
        session = record x.session { controller = c };
        returned = x.returned ++ fresh o;
        unsent = [];
      })
  unfolding agent_receive
  responds-Inv o c w p =
      let busy : x.session.controller.agent_signal ≢ 0 = ground arith in
      let one = one_up w busy in
      let out : o ≡ x.session.controller.env_output = ground arith in
      let off : x.env ≢ working = not_at_work busy in
      record {
        lock = ground arith;
        partial = ground arith;
        at_work = λ f. absurd (off f);
        acting_waits = λ f g. ground arith;
        acting_free = λ f g. ground (arith, acting_waits f);
        at_end = λ f. ground (arith, at_end f);
        total = rw (append-nil, out, up off one) total;
        kept = λ f. absurd (off f);
        shown = λ f. ground (arith, shown f);
        up = λ f g. ground (arith, one);
        down = λ f g. refl;
      }

Step-Inv : {x y : Exchange} → Step x y → Inv x → Inv y
Step-Inv (injects i b h new w p e q) v = rw q (injects-Inv v h new w e)
Step-Inv (acts s w p q) v = rw q (acts-Inv v s w p)
Step-Inv (resumes s w p q) v = rw q (resumes-Inv v s w p)
Step-Inv (finishes o c w h p q) v = rw q (finishes-Inv v o c w h p)
Step-Inv (requests messages c w p q) v = rw q (requests-Inv v messages c w p)
Step-Inv (responds o c w p q) v = rw q (responds-Inv v o c w p)

Reach-Inv : {id : ℕ} {x : Exchange} → Reach id x → Inv x
Reach-Inv here = record {
  lock = refl;
  partial = refl;
  at_work = λ _. (refl, refl, refl);
  acting_waits = λ f. cc f;
  acting_free = λ f. cc f;
  at_end = λ f. cc f;
  total = refl;
  kept = λ _. refl;
  shown = λ f. cc f;
  up = λ f. absurd (f refl);
  down = λ _ _. refl;
}
Reach-Inv (next r st) = Step-Inv st (Reach-Inv r)

none_left : {x : Exchange} → Inv x → agent_waits x ≡ false → x.unsent ≡ []
none_left {x} v f = elim (EnvPc-cases x.env) [
  | inl e ↦ ground (arith, v.at_work e)
  | inr (inl e) ↦ v.down (λ (g : x.env ≡ working). cc e) (v.acting_free e f).0
  | inr (inr e) ↦ v.down (λ (g : x.env ≡ working). cc e) (ground (arith, v.at_end e))
]

-- Whenever no request of the session waits, the requests have returned exactly the items that the
-- task injected, each once and in order; what was injected is always what was returned followed by
-- what was not yet. This is about a task that is not cancelled and that calls none of `clear`, `cover`
-- and `set_full_history`; of an injection that raises at an invalid item, the items before that one
-- count as injected.
pub every_item_once :
    {id : ℕ} {x : Exchange}
    → Reach id x
    → (x.injected ≡ x.returned ++ x.unsent) × (agent_waits x ≡ false → x.unsent ≡ [])
every_item_once r = let v = Reach-Inv r in (v.total, λ f. none_left v f)
