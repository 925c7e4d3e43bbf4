-- ===== src/Links/Parts.antt =====
-- What a link hands on: the settings below /proc/sys/net, the settings of its bridge port, and the file that
-- keeps the namespace that it is bound to.
use ifstate.Prelude.{
  ℕ, String, Bool, true, false, not, Option, none, some, List, [], ◌∷◌, ◌++◌, ◌==◌, if◌then◌else◌,
  map, text_key, contains,
}
use ifstate.Value.{text, Fields}
use ifstate.Netlink.{
  Event, log_ok, log_add, log_change, log_del, log_warn, log_err, warning, link_missing, Run,
}
use ifstate.Collector.{Task}
use ifstate.Registry.{Item}
use ifstate.BrPort as Port
use ifstate.Sysctl as Setting
use ifstate.Links.{
  Host, Link, port, sysctl, write_bind, Session, catch, send, note_at, subject, unbound, unknown,
  bound, get_bind_netns,
}

-- a line of the log of the sysctl settings
unfoldable pub setting_event : Event (String × String) → Event Fields
setting_event (log_ok p) = log_ok ((p.0, text p.1) ∷ [])
setting_event (log_add p) = log_add ((p.0, text p.1) ∷ [])
setting_event (log_change p) = log_change ((p.0, text p.1) ∷ [])
setting_event (log_del p) = log_del ((p.0, text p.1) ∷ [])
setting_event (log_warn p) = log_warn ((p.0, text p.1) ∷ [])
setting_event (log_err p) = log_err ((p.0, text p.1) ∷ [])
setting_event (warning p) = warning ((p.0, text p.1) ∷ [])
setting_event link_missing = link_missing

abbrev pub attr_bind_kinds : List String
attr_bind_kinds =
    "ip6tnl" ∷ "tun" ∷ "veth" ∷ "vti" ∷ "vti6" ∷ "vxlan" ∷ "ipip" ∷ "gre" ∷ "gretap" ∷ "ip6gre"
    ∷ "ip6gretap" ∷ "geneve" ∷ "sit" ∷ "wireguard" ∷ "xfrm" ∷ []

module _ {K : Type 0} (host : Host K) where
  unfoldable pub proc : Setting.Proc K
  proc = record { read = host.read_sysctl; send = λ r k. host.send (sysctl r) k }

  unfoldable pub port_host : Port.Host K
  port_host = record { dump = host.dump_port; send = λ r k. host.send (port r) k }

  -- `sysctl.apply(...)`
  unfoldable pub apply_sysctl :
      {V : Type 0}
      → (V → String)
      → Setting.Sysctl V
      → String
      → Bool
      → Option String
      → Session K
      → Session K
  unfolding proc setting_event
  apply_sysctl str c iface do_apply config s =
      let run = s.task.run in
      let begin : Run K Setting.Request (Event (String × String)) = record {
        kernel = run.kernel;
        sent = [];
        log = [];
      } in
      let after = Setting.apply proc str iface do_apply config c begin in
      record s {
        task = record s.task {
          run = record {
            kernel = after.kernel;
            sent = run.sent ++ map sysctl after.sent;
            log = run.log ++ map setting_event after.log;
          };
        };
      }

  -- `self.brport.has_changes(self.idx)`
  unfoldable pub port_changes : Link → ℕ → K → Bool
  unfolding port_host
  port_changes c idx k = elim c.brport [
    | none ↦ false
    | some p ↦ Port.has_changes port_host p idx k
  ]

  -- `self.brport.apply(do_apply, self.idx, excpts)`
  unfoldable pub apply_port : Bool → Link → ℕ → Session K → Session K
  unfolding port_host
  apply_port do_apply c idx s = elim c.brport [
    | none ↦ s
    | some p ↦
        let run = s.task.run in
        let begin : Task K Port.Request Fields = record {
          run = record { kernel = run.kernel; sent = []; log = run.log };
          excpts = s.task.excpts;
        } in
        let after = Port.apply port_host do_apply p idx begin in
        record s {
          task = record {
            run = record {
              kernel = after.run.kernel;
              sent = run.sent ++ map port after.run.sent;
              log = after.run.log;
            };
            excpts = after.excpts;
          };
        }
  ]

  -- `set_bind_state`; an error is logged
  unfoldable pub set_bind_state : Link → Option ℕ → String → Session K → Session K
  unfolding send catch note_at
  set_bind_state c idx state s =
      catch (send host (write_bind c.netns idx state)) (λ code. note_at (warning (subject "bind")))
        s

  -- `bind_needs_recreate`; `none` is `NetnsUnknown`. A link of one of the kinds has the attribute.
  unfoldable pub bind_needs_recreate : Link → Item → K → Option Bool
  unfolding get_bind_netns
  bind_needs_recreate c item k =
      let state = host.read_bind k item.netns item.index in
      if not (contains item.kind attr_bind_kinds) then some false else elim (get_bind_netns c) [
        | unknown ↦ none
        | unbound ↦ some true
        | bound n ↦ elim state [ none ↦ some true | some m ↦ some (not (m == host.mount n)) ]
      ]
