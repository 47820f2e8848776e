-- ===== src/Main/Run.antt =====
-- src/main.cpp: what `main` does once it has the settings: the start of a forwarder for each protocol,
-- and what it prints.
use port_forward_x.Prelude.{
  ℕ, zero, Bool, true, false, List, [], ◌∷◌, ◌++◌, none, some, if◌then◌else◌, Text, codes, lowered,
  to_text,
}
use port_forward_x.Config.{ForwardConfig, default_config, TransportProtocol, tcp, udp}
use port_forward_x.Config.Names.{address_family_to_string, transport_protocol_to_string}
use port_forward_x.System.{Os, Sys, Trace}
use port_forward_x.System.Calls.{◌>>◌, pure, print}
use port_forward_x.Platform.{ErrorOut}
use port_forward_x.Version.{Version, version_string}
use port_forward_x.Main.CommandLine.{CommandLine, not_parsed, parsed, with_defaults}
use port_forward_x.Main.{Options, Checked, refused, taken, Setup, configure}
use port_forward_x.Forwarder
use port_forward_x.Forwarder.{Forwarder, make_forwarder}
use port_forward_x.Forwarder.Threads.{Service, ready}

-- Where `main` stands: forwarders are still to be started for these protocols; it waits for a signal;
-- it stops the forwarders and will return this code; it has returned it.
pub data Phase : Type 0 where
  starting : List TransportProtocol → Phase
  waiting : Phase
  stopping returned : ℕ → Phase

-- `stopped` are the forwarders that the loop of `Stop` calls has passed.
pub record Program : Type 0 where
  pub run_mode : Text
  pub protocol_input : Text
  pub config : ForwardConfig
  pub phase : Phase
  pub stopped : List Service
  pub forwarders : List Service
  pub trace : Trace

abbrev pub protocols : Setup → List TransportProtocol
protocols setup =
    (if setup.enable_tcp then tcp ∷ [] else []) ++ (if setup.enable_udp then udp ∷ [] else [])

-- `return` before any forwarder is made.
abbrev pub return_early : ℕ → Text → Trace → Program
return_early code message t = record {
  run_mode = [];
  protocol_input = [];
  config = default_config;
  phase = returned code;
  stopped = [];
  forwarders = [];
  trace = (print message t).1;
}

-- `main` from the settings to the first call of `start_forwarder`.
abbrev pub prepared : Options → Trace → Checked Setup → Program
prepared o t (refused message) = return_early 1 message t
prepared o t (taken setup) = record {
  run_mode = o.mode;
  protocol_input = lowered o.protocol;
  config = setup.config;
  phase = starting (protocols setup);
  stopped = [];
  forwarders = [];
  trace = t;
}

unfoldable pub begin : Version → CommandLine → Trace → Program
unfolding configure with_defaults version_string
begin v (not_parsed what) t = return_early 1 (codes "Argument parse error: " ++ what) t
begin v (parsed true given) t = return_early 0 (codes "PortForwardX " ++ version_string v) t
begin v (parsed false given) t = let o = with_defaults given in prepared o t (configure o)

abbrev pub message_of : ErrorOut → Text
message_of (some message) = message
message_of none = []

-- The rest of `start_forwarder`, and what `main` does with its result. A forwarder that did not start
-- is destroyed.
abbrev pub add_forwarder :
    TransportProtocol
    → List TransportProtocol
    → Program
    → Bool × (Forwarder × ErrorOut)
    → Trace
    → Program
add_forwarder protocol rest p (true, (f, error)) t = record p {
  phase = starting rest;
  forwarders = p.forwarders ++ record { forwarder = f; stage = ready } ∷ [];
  trace = t;
}
add_forwarder protocol rest p (false, (f, error)) t = record p {
  phase = stopping 2;
  trace =
      (print
        (codes "Failed to start "
          ++ (transport_protocol_to_string protocol ++ (codes " forwarder: " ++ message_of error)))
        t).1;
}

-- The parts of a line, one after the other.
abbrev pub joined : List Text → Text
joined [] = []
joined (part ∷ rest) = part ++ joined rest

unfoldable pub print_listening : List Service → Sys (Unit {0})
unfolding transport_protocol_to_string
print_listening [] = pure tt
print_listening (s ∷ rest) =
    print (
      joined (
        codes "  listen("
        ∷ transport_protocol_to_string s.forwarder.impl.config.protocol
        ∷ codes "): "
        ∷ s.forwarder.listening_host
        ∷ codes ":"
        ∷ to_text s.forwarder.listening_port
        ∷ []))
    >> print_listening rest

unfoldable pub print_banner : Text → Text → ForwardConfig → List Service → Sys (Unit {0})
unfolding address_family_to_string print_listening
print_banner run_mode protocol_input config forwarders = do
  print (codes "Forwarding started.")
  print (codes "  mode: " ++ run_mode)
  print (
      joined
        (codes "  target: " ∷ config.target_host ∷ codes ":" ∷ to_text config.target_port ∷ []))
  print (codes "  protocol: " ++ protocol_input)
  print (
      joined (
        codes "  family: "
        ∷ address_family_to_string config.family
        ∷ codes " (listen="
        ∷ address_family_to_string config.listen_family
        ∷ codes ", target="
        ∷ address_family_to_string config.target_family
        ∷ codes ")"
        ∷ []))
  print (codes "  dns refresh: " ++ (to_text config.dns_refresh_interval_minutes ++ codes "min"))
  print (
      codes "  udp idle timeout: "
      ++ (to_text config.udp_session_idle_timeout_seconds ++ codes "s (0=disabled)"))
  print (codes "  udp debug: " ++ (if config.udp_debug then codes "on" else codes "off"))
  print_listening forwarders
  print (codes "Press Ctrl+C to stop.")

abbrev pub wait_for_signal : Program → Program
wait_for_signal p = record p {
  phase = waiting;
  trace = (print_banner p.run_mode p.protocol_input p.config p.forwarders p.trace).1;
}

-- `return` after the forwarders are stopped.
abbrev pub leave : ℕ → Program → Program
leave zero p = record p {
  phase = returned 0;
  trace = (print (codes "Forwarding stopped.") p.trace).1;
}
leave code p = record p { phase = returned code }

module _ ⦃os : Os⦄ where
  -- `start_forwarder`
  abbrev pub start_forwarder : TransportProtocol → List TransportProtocol → Program → Program
  start_forwarder protocol rest p =
      let (r, t) =
        Forwarder.start (some []) (make_forwarder (record (p.config) { protocol = protocol }))
          p.trace in
      add_forwarder protocol rest p r t
