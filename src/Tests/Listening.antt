-- ===== src/Tests/Listening.antt =====
-- Runs of the list of listeners: a smartsocket and a forward.
use adb_src.Base.{some, none, [], ◌∷◌, ◌++◌, ◌≡◌, ◌↔◌, codes}
use adb_src.Listeners.{Listener, Listeners, remove_listener, remove_all_listeners}
use adb_src.Listeners.Install.{Network, Request, install_listener}
use adb_src.Listeners.Install.Map.{lookup, spec, Meets, install_listener-Meets}
use adb_src.Base.{if◌then◌else◌, bytes_eq, true, refl}
use adb_src.Listeners.Smart.{
  undefined, closed, NoneNamed, close_smartsockets, close_smartsockets-undefined,
}
use adb_src.Listeners.Format.{format_listeners, format_listeners-remove_all_listeners}
use adb_src.Listeners.Lookup.{
  specials, other_fds, RemoveEnds, remove_all_listeners-specials, remove_listener-RemoveEnds,
}

abbrev smart : Listener
smart = record {
  address = 0;
  fd = 5;
  local_name = codes "tcp:5037";
  connect_to = codes "*smartsocket*";
  transport = none;
}

abbrev forward : Listener
forward = record {
  address = 1;
  fd = 6;
  local_name = codes "tcp:8000";
  connect_to = codes "tcp:80";
  transport = some 2;
}

abbrev two : Listeners
two = record {
  listener_list = smart ∷ forward ∷ [];
  disconnects = (2, 1) ∷ [];
  closed_fds = [];
  next_address = 2;
}

remove_all_listeners-specials_example :
    ((remove_all_listeners two).listener_list ≡ specials (smart ∷ forward ∷ []))
    × ((remove_all_listeners two).closed_fds ≡ [] ++ other_fds (smart ∷ forward ∷ []))
remove_all_listeners-specials_example = remove_all_listeners-specials two

remove_listener-RemoveEnds_example :
    RemoveEnds (codes "tcp:8000") two (remove_listener (codes "tcp:8000") two)
remove_listener-RemoveEnds_example = remove_listener-RemoveEnds (codes "tcp:8000") two

-- A port that is asked for is given; the port 0 is resolved to 9000.
abbrev network : Network
network = record {
  socket_spec_listen =
      λ name. if bytes_eq name (codes "tcp:0") then some (8, 9000) else some (8, 0);
  tcp_name = λ port. codes "tcp:9000";
}

abbrev any_port : Request
any_port = record {
  local_name = codes "tcp:0";
  connect_to = codes "tcp:81";
  transport = some 3;
  no_rebind = true;
}

install_listener-Meets_example :
    Meets
      (spec network any_port (lookup (smart ∷ forward ∷ [])))
      (install_listener network any_port two)
unfolding lookup bytes_eq
install_listener-Meets_example =
    install_listener-Meets network any_port 3 refl two ((λ e. cc), ((λ e. (2, refl)), tt))
      (λ fd r e. refl)

-- One listener with the local name is destroyed.
named_smart-closed :
    close_smartsockets (record two {
      listener_list = record smart { local_name = codes "*smartsocket*" } ∷ forward ∷ [];
    })
    ≡ closed (record two { listener_list = forward ∷ []; closed_fds = two.closed_fds ++ (5 ∷ []) })
unfolding close_smartsockets bytes_eq
named_smart-closed = refl

close_smartsockets-undefined_example :
    (close_smartsockets two ≡ undefined) ↔ NoneNamed two.listener_list
close_smartsockets-undefined_example = close_smartsockets-undefined two

-- The transport of every forward has a serial.
two-format :
    format_listeners (λ t. some (codes "HT99")) two
    ≡ some (codes "HT99 tcp:8000 tcp:80" ++ (10 ∷ []))
unfolding format_listeners
two-format = refl

format_listeners-remove_all_listeners_example :
    format_listeners (λ t. some (codes "HT99")) (remove_all_listeners two) ≡ some []
format_listeners-remove_all_listeners_example =
    format_listeners-remove_all_listeners (λ t. some (codes "HT99")) two
