-- ===== src/Control/Server.antt =====
-- ControlServer of src/control_server.cpp from its start: what holds after any messages, and what
-- an accepted batch or scalar update does.
use ocudu_channel.Common.{
  ℕ, ◌≡◌, refl, sym, ap, subst, ◌∙◌, arith, inl, false, none, some, List, [], ◌∷◌, String, Floats,
  ok, lookup, lookup-Each, lookup-erase_self, length, add64, All,
}
use ocudu_channel.Runtime.{MutableParams, BrokerLinkControl, init_broker_link_control, zero_double}
use ocudu_channel.Control.Json.{Fields, find, get_number}
use ocudu_channel.Control.Reader.{parse_body}
use ocudu_channel.Control.State.{StagedOp, Reply, committed, Env, ControlServer}
use ocudu_channel.Control.Checks.{batch_id}
use ocudu_channel.Control.Invariant.{OpOk, Sound}
use ocudu_channel.Control.Handlers.{handle_message, handle_batch_commit}
use ocudu_channel.Control.Handlers.Batches.{commit_ops-Done, commit_ops-send_each, send_each}
use ocudu_channel.Control.Handlers.Messages.{parsed-Fine, commit-runs}
use ocudu_channel.Control.Handlers.Requests.{Clean}

module _ {F G : Type 0} (fl : Floats F G) (env : Env) where
  -- A new server, over control blocks that the backend has initialised.
  unfoldable pub new_server :
      (ℕ → BrokerLinkControl F G) → (ℕ → MutableParams G) → ControlServer F G
  unfolding init_broker_link_control
  new_server blocks yaml = record {
    controls = λ c. init_broker_link_control fl (blocks c) (yaml c);
    open_batches = [];
    msgs_received = 0;
    updates_applied = 0;
    updates_rejected = 0;
    batches_committed = 0;
    batches_aborted = 0;
  }

  -- The loop of `run_loop`, over the bodies it receives.
  unfoldable pub serve_all : ControlServer F G → List String → ControlServer F G
  serve_all s [] = s
  serve_all s (body ∷ bodies) = serve_all (handle_message fl env s body).1 bodies

  counted-Sound :
      (yaml : ℕ → MutableParams G) (s : ControlServer F G) (n : ℕ)
      → Sound fl env yaml s
      → Sound fl env yaml (record s { msgs_received = n })
  counted-Sound yaml s n h = record { controls_ok = h.controls_ok; staged_ok = h.staged_ok }

  message-Sound :
      (yaml : ℕ → MutableParams G) (s : ControlServer F G) (body : String)
      → Sound fl env yaml s
      → Sound fl env yaml (handle_message fl env s body).1
  unfolding handle_message
  message-Sound yaml s body h =
      (parsed-Fine fl env yaml (record s { msgs_received = add64 s.msgs_received 1 })
        (parse_body fl body) (counted-Sound yaml s (add64 s.msgs_received 1) h)).0

  all-Sound :
      (yaml : ℕ → MutableParams G) (s : ControlServer F G) (bodies : List String)
      → Sound fl env yaml s
      → Sound fl env yaml (serve_all s bodies)
  unfolding serve_all
  all-Sound yaml s [] h = h
  all-Sound yaml s (body ∷ bodies) h =
      all-Sound yaml (handle_message fl env s body).1 bodies (message-Sound yaml s body h)

  new_server-Sound :
      (blocks : ℕ → BrokerLinkControl F G) (yaml : ℕ → MutableParams G)
      → Sound fl env yaml (new_server blocks yaml)
  unfolding new_server init_broker_link_control
  new_server-Sound blocks yaml = record {
    controls_ok =
        λ c. record { permitted = λ name spec listed. inl refl; profile_ok = λ pending. cc };
    staged_ok = tt;
  }

  -- After any requests, well formed or not, each parameter of each link's shadow is the initial one
  -- or a value of its whitelisted range, a pending profile has 1 to 32 taps with delays and gains in
  -- range, and every staged operation names a known link and a whitelisted value.
  pub serve_all-Sound :
      (blocks : ℕ → BrokerLinkControl F G) (yaml : ℕ → MutableParams G) (bodies : List String)
      → Sound fl env yaml (serve_all (new_server blocks yaml) bodies)
  serve_all-Sound blocks yaml bodies =
      all-Sound yaml (new_server blocks yaml) bodies (new_server-Sound blocks yaml)

  -- After any requests, the reply to the next one tells what it did: a rejection has changed nothing
  -- but the counts of messages and rejections, and a request that was staged, or that opened or
  -- aborted a batch, has changed no link.
  pub reply-Clean :
      (blocks : ℕ → BrokerLinkControl F G) (yaml : ℕ → MutableParams G) (bodies : List String)
      (body : String)
      → let s = serve_all (new_server blocks yaml) bodies in
        let out = handle_message fl env s body in
        Clean (record s { msgs_received = add64 s.msgs_received 1 }) (out.0) (out.1)
  unfolding handle_message
  reply-Clean blocks yaml bodies body =
      let s = serve_all (new_server blocks yaml) bodies in
      (parsed-Fine fl env yaml (record s { msgs_received = add64 s.msgs_received 1 })
        (parse_body fl body)
        (counted-Sound yaml s (add64 s.msgs_received 1) (serve_all-Sound blocks yaml bodies))).1

  -- What a commit of `ops` with `slot` gives.
  pub record Committed (s : ControlServer F G) (bid : String) (ops : List (StagedOp F G)) (slot : F)
      (out : Reply × ControlServer F G) : Type 0 where
    pub counted : out.0 ≡ committed (length ops) (fl.to_u64 slot)
    pub as_sent : (out.1).controls ≡ (send_each fl env slot ops s).controls
    pub closed : lookup bid (out.1).open_batches ≡ none
    pub tallied : (out.1).batches_committed ≡ add64 s.batches_committed 1

  -- After any requests, a commit that names an open batch, with a slot that is not negative, applies
  -- every operation of the batch and says so, leaves the links as sending the operations one by one
  -- with that slot would, and closes the batch.
  pub commit-Committed :
      (blocks : ℕ → BrokerLinkControl F G) (yaml : ℕ → MutableParams G) (bodies : List String)
      (fields : Fields F) (bid : String) (ops : List (StagedOp F G)) (slot : F)
      → let s = serve_all (new_server blocks yaml) bodies in
        batch_id (find "id" fields) ≡ ok bid
        → lookup bid s.open_batches ≡ some ops
        → get_number fields "take_effect_at_slot" (zero_double fl) ≡ ok slot
        → fl.lt slot (zero_double fl) ≡ false
        → Committed s bid ops slot (handle_batch_commit fl env s fields)
  commit-Committed blocks yaml bodies fields bid ops slot named is_open slotted later =
      let s = serve_all (new_server blocks yaml) bodies in
      let h = serve_all-Sound blocks yaml bodies in
      let good = lookup-Each (All (OpOk fl env)) bid s.open_batches h.staged_ok is_open in
      let done = commit_ops-Done fl env yaml (fl.to_u64 slot) ops s.controls 0 h.controls_ok good in
      subst (Committed s bid ops slot)
        (sym (commit-runs fl env s fields bid ops slot named is_open slotted later))
        (record {
          counted = ap (λ n. committed n (fl.to_u64 slot)) (done.1 ∙ omega arith);
          as_sent = commit_ops-send_each fl env slot ops s 0 good;
          closed = lookup-erase_self bid s.open_batches;
          tallied = refl;
        })
