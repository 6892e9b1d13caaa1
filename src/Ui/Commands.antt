-- ===== src/Ui/Commands.antt =====
-- `UI::handle_command` of src/bin/trithemius-term/ui.rs: the commands of the input line.
use trithemius_p2p.Base.{
  Text, codes, Option, none, some, List, [], ◌∷◌, ◌++◌, Eq, ◌==◌, text_eq, ◌⊎◌, inl, inr, ℕ,
  if◌then◌else◌, to_ascii_lowercase,
}
use trithemius_p2p.Base.Decimal.{parse_unsigned, max_u64}
use trithemius_p2p.Subscriptions.Queue.{CircularQueue}
use trithemius_p2p.Engine.Events.{PackageTypes}
use trithemius_p2p.Engine.Run.{Swarm, EngineError, error, InputEvent, shutdown}
use trithemius_p2p.Engine.Run
use trithemius_p2p.Ui.Actions.{◌>>=◌, ◌>>◌, pure, tried}
use trithemius_p2p.Ui.{
  World, UiError, peer_error, namespace_error, engine_error, Act, on_engine, log_info, log_error,
}
use trithemius_p2p.Ui.Topics.{subscribe, unsubscribe}
use trithemius_p2p.Ui.Network.{listen, connect, register, find_peer, create_onion_service}

module _ {T : PackageTypes} (S : Swarm T) (Q : CircularQueue) (W : World S) ⦃peer_eq : Eq T.PeerId⦄
    ⦃query_eq : Eq T.QueryId⦄ where
  -- What a command returns.
  abbrev pub Done : Type 0
  Done = Act S Q W (Option InputEvent)

  -- A command that ends in `Ok(None)`
  abbrev pub nothing_more : {A : Type 0} → Act S Q W A → Done
  nothing_more m = do m; pure none

  abbrev pub complain : Text → Done
  complain text = nothing_more (log_error S Q W text)

  abbrev pub subscribe_command : List Text → Done
  subscribe_command (topic_name ∷ _) = nothing_more (subscribe S Q W topic_name)
  subscribe_command [] = complain (codes "'subscribe' command requires topic name to subscribe to")

  abbrev pub unsubscribe_command : List Text → Done
  unsubscribe_command (topic_name ∷ _) = nothing_more (unsubscribe S Q W topic_name)
  unsubscribe_command [] =
      complain (codes "'unsubscribe' command requires topic name to unsubscribe from")

  abbrev pub listen_command : List Text → Done
  listen_command (address ∷ _) = nothing_more (listen S Q W address)
  listen_command [] = complain (codes "'listen' command requires network address to listen on")

  abbrev pub connect_command : List Text → Done
  connect_command (address ∷ _) = nothing_more (connect S Q W address)
  connect_command [] = complain (codes "'connect' command requires network address to connect to")

  -- The first of the arguments, if there is one.
  abbrev pub first : List Text → Option Text
  first [] = none
  first (arg ∷ _) = some arg

  abbrev pub create_command : List Text → Done
  create_command (virt_port ∷ args) =
      nothing_more (create_onion_service S Q W virt_port (first args))
  create_command [] =
      complain (codes "'create-onion-service' command requires at least one port argument")

  abbrev pub find_command : List Text → Done
  find_command (peer_id ∷ _) = nothing_more (find_peer S Q W peer_id)
  find_command [] = complain (codes "'findpeer' command requires Peer ID to find")

  -- The errors that `register` raises.
  abbrev pub show_register_error : UiError S → Text
  show_register_error (peer_error text) = text
  show_register_error (namespace_error text) = text
  show_register_error (engine_error (error text)) = text
  show_register_error _ = []

  abbrev pub after_register : Text → UiError S ⊎ Unit {0} → Done
  after_register namespace (inr _) =
      nothing_more (log_info S Q W (codes "Registered in namespace " ++ namespace))
  after_register namespace (inl x) = nothing_more (log_error S Q W (show_register_error x))

  abbrev pub register_command : List Text → Done
  register_command (namespace ∷ rendezvous_node ∷ _) = do
    result ← tried (register S Q W namespace rendezvous_node)
    after_register namespace result
  register_command (_ ∷ []) =
      complain (codes "'register' command requires a namespace and a rendezvous node peer ID")
  register_command [] =
      complain (codes "'register' command requires a namespace and a rendezvous node peer ID")

  abbrev pub after_discover : EngineError ⊎ Unit {0} → Done
  after_discover (inr _) = pure none
  after_discover (inl (error text)) = complain (codes "Error in discover: " ++ text)

  abbrev pub discover_limited : Option T.Namespace → T.PeerId → Option ℕ → Done
  discover_limited namespace rendezvous_node limit = do
    result ← tried (on_engine S Q W (Run.discover S namespace none limit rendezvous_node))
    after_discover result

  abbrev pub with_limit : Option T.Namespace → T.PeerId → Text → Option ℕ → Done
  with_limit namespace rendezvous_node text (some limit) =
      discover_limited namespace rendezvous_node (some limit)
  with_limit namespace rendezvous_node text none =
      complain (codes "Error parsing limit parameter: " ++ W.show_int_error text)

  abbrev pub in_namespace : T.PeerId → List Text → Option T.Namespace → Done
  in_namespace rendezvous_node [] namespace = discover_limited namespace rendezvous_node none
  in_namespace rendezvous_node (limit ∷ _) namespace =
      with_limit namespace rendezvous_node limit (parse_unsigned max_u64 limit)

  abbrev pub with_namespace : T.PeerId → List Text → Text ⊎ T.Namespace → Done
  with_namespace rendezvous_node limit (inr namespace) =
      in_namespace rendezvous_node limit (some namespace)
  with_namespace rendezvous_node limit (inl _) = complain (codes "Namespace string is too long")

  abbrev pub discover_at : List Text → T.PeerId → Done
  discover_at [] rendezvous_node = in_namespace rendezvous_node [] none
  discover_at (namespace ∷ limit) rendezvous_node =
      with_namespace rendezvous_node limit (W.namespace_new namespace)

  abbrev pub discover_from : List Text → Text ⊎ T.PeerId → Done
  discover_from args (inr rendezvous_node) = discover_at args rendezvous_node
  discover_from args (inl x) = complain (codes "Error converting rendezvous node to PeerId: " ++ x)

  abbrev pub discover_command : List Text → Done
  discover_command (rendezvous_node ∷ args) = discover_from args (W.peer_from_str rendezvous_node)
  discover_command [] = complain (codes "'discover' command requires a rendezvous node peer ID")

  -- The commands by name.
  pub data Command : Type 0 where
    subscribe_ unsubscribe_ listen_ connect_ create_ find_ register_ discover_ quit_ unknown_ :
        Command

  -- The arms of the `match`, the first that fits.
  abbrev pub command_of : Text → Command
  command_of name =
      if name == codes "subscribe"
      then subscribe_
      else if name == codes "unsubscribe"
      then unsubscribe_
      else if name == codes "listen"
      then listen_
      else if name == codes "connect"
      then connect_
      else if name == codes "create-onion-service"
      then create_
      else if name == codes "findpeer"
      then find_
      else if name == codes "register"
      then register_
      else if name == codes "discover"
      then discover_
      else if name == codes "quit"
      then quit_
      else unknown_

  abbrev pub run_command : Text → List Text → Command → Done
  run_command command args subscribe_ = subscribe_command args
  run_command command args unsubscribe_ = unsubscribe_command args
  run_command command args listen_ = listen_command args
  run_command command args connect_ = connect_command args
  run_command command args create_ = create_command args
  run_command command args find_ = find_command args
  run_command command args register_ = register_command args
  run_command command args discover_ = discover_command args
  run_command command args quit_ = pure (some shutdown)
  run_command command args unknown_ = complain (codes "Unknown command '" ++ (command ++ codes "'"))

  unfoldable pub handle_command : List Text → Done
  handle_command [] = pure none
  handle_command (command ∷ args) =
      run_command command args (command_of (to_ascii_lowercase command))
