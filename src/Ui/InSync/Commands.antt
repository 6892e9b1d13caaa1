-- ===== src/Ui/InSync/Commands.antt =====
-- No command of the input line takes the tabs, the messages and gossipsub out of agreement.
use trithemius_p2p.Base.{
  stuck, ℕ, Text, Option, none, some, Eq, ◌⊎◌, inl, inr, List, [], ◌∷◌, Outcome, ok, err, panic,
  map_err,
}
use trithemius_p2p.Base.Decimal.{parse_u16}
use trithemius_p2p.Util.{Multiaddr}
use trithemius_p2p.NetworkAddr.Formats.{AddrError}
use trithemius_p2p.NetworkAddr
use trithemius_p2p.Subscriptions.Queue.{CircularQueue}
use trithemius_p2p.Engine.Events.{PackageTypes}
use trithemius_p2p.Engine.Run.{Swarm, Engine, EngineError, error}
use trithemius_p2p.Engine.Ops.{ServiceError}
use trithemius_p2p.Ui.Actions.{waiting, Action, pure, raise, panicked, tried, as_value}
use trithemius_p2p.Ui.{
  World, UiError, Ui, State, Act, on_engine, passing, log_info, log_error, addr_error, peer_error,
  namespace_error, engine_error, listen_error, dial_error,
}
use trithemius_p2p.Ui.Network.{
  parsed, listen, connect, given, connecting, engine_finding, register, find_parsed, find_peer,
  after_create, create_at, create_parsed, create_unwrapped, create_for, create_on,
  create_onion_service,
}
use trithemius_p2p.Ui.Commands
use trithemius_p2p.Ui.Commands.{
  Done, Command, handle_command, run_command, command_of, nothing_more, complain, subscribe_command,
  unsubscribe_command, listen_command, connect_command, create_command, find_command,
  register_command, discover_command, first, after_register, after_discover, discover_limited,
  with_limit, in_namespace, with_namespace, discover_at, discover_from,
}
use trithemius_p2p.Ui.InSync.{Gossipsub, InSync, Kept, Keeps, Agree-joined, >>=-Keeps, >>-Keeps}
use trithemius_p2p.Ui.InSync.Topics.{subscribe-Keeps, unsubscribe-Keeps}
use trithemius_p2p.Ui.InSync.Network.{
  Quietly, listen-Quietly, dial-Quietly, register-Quietly, discover-Quietly, find_peer-joined,
  create-Quietly,
}

module _ {T : PackageTypes} (S : Swarm T) (Q : CircularQueue) (W : World S) (G : Gossipsub S)
    ⦃peer_eq : Eq T.PeerId⦄ ⦃query_eq : Eq T.QueryId⦄ where
  Kept-call :
      {E A : Type 0} (u : Ui T Q) (e : Engine S) (r : Engine S × Outcome E A)
      → Quietly G e r
      → InSync S Q G (u, e)
      → Kept S Q G ((u, r.0), r.1)
  Kept-call u e (e', ok a) q h = Agree-joined S Q G h q.same
  Kept-call u e (e', err x) q h = Agree-joined S Q G h q.same
  Kept-call u e (e', panic) q h = tt
  Kept-call u e (e', stuck) q h = Agree-joined S Q G h q.same

  Kept-passing :
      {E F A : Type 0} (box : E → F) (r : State S Q W × Outcome E A)
      → Kept S Q G r
      → Kept S Q G (r.0, map_err box r.1)
  Kept-passing box (s, ok a) h = h
  Kept-passing box (s, err x) h = h
  Kept-passing box (s, panic) h = tt
  Kept-passing box (s, stuck) h = h

  Kept-tried :
      {E A : Type 0} (F : Type 0) (r : State S Q W × Outcome E A)
      → Kept S Q G r
      → Kept S Q G (r.0, as_value {E = F} r.1)
  Kept-tried F (s, ok a) h = h
  Kept-tried F (s, err x) h = h
  Kept-tried F (s, panic) h = tt
  Kept-tried F (s, stuck) h = h

  tried-Keeps :
      {E A : Type 0} {m : Action (State S Q W) E A}
      → Keeps S Q G m
      → Keeps S Q G (tried {E = UiError S} m)
  tried-Keeps {m = m} k = record { kept = λ s h. Kept-tried (UiError S) (m s) (k.kept s h) }

  call-Keeps :
      {E A : Type 0} {f : Engine S → Engine S × Outcome E A}
      → ((e : Engine S) → Quietly G e (f e))
      → Keeps S Q G (on_engine S Q W f)
  call-Keeps {f = f} q = record { kept = λ (u, e) h. Kept-call u e (f e) (q e) h }

  pub passing-Keeps :
      {E A : Type 0} (box : E → UiError S) {f : Engine S → Engine S × Outcome E A}
      → ((e : Engine S) → Quietly G e (f e))
      → Keeps S Q G (passing S Q W box (on_engine S Q W f))
  passing-Keeps box {f = f} q = record {
    kept = λ (u, e) h. Kept-passing box ((u, (f e).0), (f e).1) (Kept-call u e (f e) (q e) h);
  }

  -- An action that changes none of the parts that agree.
  pub pure-Keeps : {A : Type 0} (a : A) → Keeps S Q G (pure {E = UiError S} a)
  pure-Keeps a = record { kept = λ s h. h }

  raise-Keeps : {A : Type 0} (x : UiError S) → Keeps S Q G (raise {A = A} x)
  raise-Keeps x = record { kept = λ s h. h }

  pub panicked-Keeps : {A : Type 0} → Keeps S Q G (panicked {E = UiError S} {A = A})
  panicked-Keeps = record { kept = λ s h. tt }

  waiting-Keeps : {A : Type 0} → Keeps S Q G (waiting {E = UiError S} {A = A})
  waiting-Keeps = record { kept = λ s h. h }

  log_info-Keeps : (text : Text) → Keeps S Q G (log_info S Q W text)
  log_info-Keeps text = record { kept = λ s h. h }

  pub log_error-Keeps : (text : Text) → Keeps S Q G (log_error S Q W text)
  log_error-Keeps text = record { kept = λ s h. h }

  parsed-Keeps :
      {A : Type 0} (o : Outcome AddrError Multiaddr) {k : Multiaddr → Act S Q W A}
      → ((a : Multiaddr) → Keeps S Q G (k a))
      → Keeps S Q G (parsed S Q W o k)
  parsed-Keeps (ok a) h = h a
  parsed-Keeps (err x) h = >>-Keeps S Q G (log_error-Keeps _) (raise-Keeps (addr_error x))
  parsed-Keeps panic h = panicked-Keeps
  parsed-Keeps stuck h = waiting-Keeps

  pub listen-Keeps : (address : Text) → Keeps S Q G (listen S Q W address)
  unfolding listen
  listen-Keeps address =
      parsed-Keeps (NetworkAddr.from_str W.formats address)
        λ a. passing-Keeps listen_error (listen-Quietly G a)

  connecting-Keeps : (a : Multiaddr) → Keeps S Q G (connecting S Q W a)
  connecting-Keeps a = record { kept = λ s h. h }

  pub connect-Keeps : (address : Text) → Keeps S Q G (connect S Q W address)
  unfolding connect
  connect-Keeps address = parsed-Keeps (NetworkAddr.from_str W.formats address) λ a.
      >>-Keeps S Q G (log_info-Keeps _)
        (>>-Keeps S Q G (passing-Keeps dial_error (dial-Quietly G a)) (connecting-Keeps a))

  given-Keeps : {E A : Type 0} (box : E → UiError S) (r : E ⊎ A) → Keeps S Q G (given S Q W box r)
  given-Keeps box (inl x) = raise-Keeps (box x)
  given-Keeps box (inr a) = pure-Keeps a

  register-Keeps : (n p : Text) → Keeps S Q G (register S Q W n p)
  unfolding register
  register-Keeps n p = >>=-Keeps S Q G (given-Keeps peer_error (W.peer_from_str p)) λ node.
      >>=-Keeps S Q G (given-Keeps namespace_error (W.namespace_new n))
        λ namespace. passing-Keeps engine_error (register-Quietly G namespace node)

  engine_finding-Keeps : (peer : T.PeerId) → Keeps S Q G (engine_finding S Q W peer)
  engine_finding-Keeps peer = record {
    kept = λ (u, e) h. Agree-joined S Q G h (find_peer-joined G peer e);
  }

  find_parsed-Keeps : (r : Text ⊎ T.PeerId) → Keeps S Q G (find_parsed S Q W r)
  find_parsed-Keeps (inl x) = >>-Keeps S Q G (log_error-Keeps _) (raise-Keeps (peer_error x))
  find_parsed-Keeps (inr peer) = >>-Keeps S Q G (log_info-Keeps _) (engine_finding-Keeps peer)

  find_peer-Keeps : (p : Text) → Keeps S Q G (find_peer S Q W p)
  unfolding find_peer
  find_peer-Keeps p = find_parsed-Keeps (W.peer_from_str p)

  after_create-Keeps : (r : ServiceError S ⊎ Multiaddr) → Keeps S Q G (after_create S Q W r)
  after_create-Keeps (inl x) = log_error-Keeps _
  after_create-Keeps (inr a) = log_info-Keeps _

  create_at-Keeps : (port : ℕ) (a : Multiaddr) → Keeps S Q G (create_at S Q W port a)
  create_at-Keeps port a =
      >>=-Keeps S Q G
        (tried-Keeps (call-Keeps (create-Quietly G W.formats W.environment W.connects port a)))
        after_create-Keeps

  create_parsed-Keeps :
      (port : ℕ) (o : Outcome AddrError Multiaddr) → Keeps S Q G (create_parsed S Q W port o)
  create_parsed-Keeps port (ok a) = create_at-Keeps port a
  create_parsed-Keeps port (err x) = log_error-Keeps _
  create_parsed-Keeps port panic = panicked-Keeps
  create_parsed-Keeps port stuck = waiting-Keeps

  create_unwrapped-Keeps :
      (port : ℕ) (o : Outcome AddrError Multiaddr) → Keeps S Q G (create_unwrapped S Q W port o)
  create_unwrapped-Keeps port (ok a) = create_at-Keeps port a
  create_unwrapped-Keeps port (err x) = panicked-Keeps
  create_unwrapped-Keeps port panic = panicked-Keeps
  create_unwrapped-Keeps port stuck = waiting-Keeps

  create_for-Keeps : (port : ℕ) (a : Option Text) → Keeps S Q G (create_for S Q W port a)
  create_for-Keeps port (some a) = create_parsed-Keeps port _
  create_for-Keeps port none = create_unwrapped-Keeps port _

  create_on-Keeps :
      (text : Text) (port : Option ℕ) (a : Option Text) → Keeps S Q G (create_on S Q W text port a)
  create_on-Keeps text (some port) a = create_for-Keeps port a
  create_on-Keeps text none a = log_error-Keeps _

  pub create_onion_service-Keeps :
      (port : Text) (a : Option Text) → Keeps S Q G (create_onion_service S Q W port a)
  unfolding create_onion_service
  create_onion_service-Keeps port a = create_on-Keeps port (parse_u16 port) a

  pub nothing_more-Keeps :
      {A : Type 0} {m : Act S Q W A} → Keeps S Q G m → Keeps S Q G (nothing_more S Q W m)
  nothing_more-Keeps k = >>-Keeps S Q G k (pure-Keeps none)

  pub complain-Keeps : (text : Text) → Keeps S Q G (complain S Q W text)
  complain-Keeps text = nothing_more-Keeps (log_error-Keeps text)

  after_register-Keeps :
      (n : Text) (r : UiError S ⊎ Unit {0}) → Keeps S Q G (after_register S Q W n r)
  after_register-Keeps n (inl x) = nothing_more-Keeps (log_error-Keeps _)
  after_register-Keeps n (inr _) = nothing_more-Keeps (log_info-Keeps _)

  after_discover-Keeps : (r : EngineError ⊎ Unit {0}) → Keeps S Q G (after_discover S Q W r)
  after_discover-Keeps (inl (error text)) = complain-Keeps _
  after_discover-Keeps (inr _) = pure-Keeps none

  discover_limited-Keeps :
      (n : Option T.Namespace) (p : T.PeerId) (l : Option ℕ)
      → Keeps S Q G (discover_limited S Q W n p l)
  discover_limited-Keeps n p l =
      >>=-Keeps S Q G (tried-Keeps (call-Keeps (discover-Quietly G n none l p)))
        after_discover-Keeps

  with_limit-Keeps :
      (n : Option T.Namespace) (p : T.PeerId) (text : Text) (l : Option ℕ)
      → Keeps S Q G (with_limit S Q W n p text l)
  with_limit-Keeps n p text (some l) = discover_limited-Keeps n p (some l)
  with_limit-Keeps n p text none = complain-Keeps _

  in_namespace-Keeps :
      (p : T.PeerId) (args : List Text) (n : Option T.Namespace)
      → Keeps S Q G (in_namespace S Q W p args n)
  in_namespace-Keeps p [] n = discover_limited-Keeps n p none
  in_namespace-Keeps p (limit ∷ _) n = with_limit-Keeps n p limit _

  with_namespace-Keeps :
      (p : T.PeerId) (args : List Text) (r : Text ⊎ T.Namespace)
      → Keeps S Q G (with_namespace S Q W p args r)
  with_namespace-Keeps p args (inl x) = complain-Keeps _
  with_namespace-Keeps p args (inr n) = in_namespace-Keeps p args (some n)

  discover_at-Keeps : (args : List Text) (p : T.PeerId) → Keeps S Q G (discover_at S Q W args p)
  discover_at-Keeps [] p = in_namespace-Keeps p [] none
  discover_at-Keeps (n ∷ args) p = with_namespace-Keeps p args _

  discover_from-Keeps :
      (args : List Text) (r : Text ⊎ T.PeerId) → Keeps S Q G (discover_from S Q W args r)
  discover_from-Keeps args (inl x) = complain-Keeps _
  discover_from-Keeps args (inr p) = discover_at-Keeps args p

  -- Every command, with any arguments.
  run_command-Keeps :
      (name : Text) (args : List Text) (c : Command S Q W)
      → Keeps S Q G (run_command S Q W name args c)
  run_command-Keeps name (t ∷ _) Commands.subscribe_ =
      nothing_more-Keeps (subscribe-Keeps S Q W G t)
  run_command-Keeps name [] Commands.subscribe_ = complain-Keeps _
  run_command-Keeps name (t ∷ _) Commands.unsubscribe_ =
      nothing_more-Keeps (unsubscribe-Keeps S Q W G t)
  run_command-Keeps name [] Commands.unsubscribe_ = complain-Keeps _
  run_command-Keeps name (a ∷ _) Commands.listen_ = nothing_more-Keeps (listen-Keeps a)
  run_command-Keeps name [] Commands.listen_ = complain-Keeps _
  run_command-Keeps name (a ∷ _) Commands.connect_ = nothing_more-Keeps (connect-Keeps a)
  run_command-Keeps name [] Commands.connect_ = complain-Keeps _
  run_command-Keeps name (p ∷ args) Commands.create_ =
      nothing_more-Keeps (create_onion_service-Keeps p _)
  run_command-Keeps name [] Commands.create_ = complain-Keeps _
  run_command-Keeps name (p ∷ _) Commands.find_ = nothing_more-Keeps (find_peer-Keeps p)
  run_command-Keeps name [] Commands.find_ = complain-Keeps _
  run_command-Keeps name (n ∷ p ∷ _) Commands.register_ =
      >>=-Keeps S Q G (tried-Keeps (register-Keeps n p)) (after_register-Keeps n)
  run_command-Keeps name (n ∷ []) Commands.register_ = complain-Keeps _
  run_command-Keeps name [] Commands.register_ = complain-Keeps _
  run_command-Keeps name (p ∷ args) Commands.discover_ = discover_from-Keeps args _
  run_command-Keeps name [] Commands.discover_ = complain-Keeps _
  run_command-Keeps name args Commands.quit_ = pure-Keeps _
  run_command-Keeps name args Commands.unknown_ = complain-Keeps _

  pub handle_command-Keeps : (args : List Text) → Keeps S Q G (handle_command S Q W args)
  unfolding handle_command
  handle_command-Keeps [] = pure-Keeps none
  handle_command-Keeps (command ∷ args) = run_command-Keeps command args _
