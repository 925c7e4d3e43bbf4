-- ===== src/Lib.antt =====
-- ifstate (libifstate/, ifstate/) configures the network interfaces of a Linux host from a
-- declarative file. A run reads the configuration, collects the links and their settings in
-- objects, sorts the links by their dependencies, and then compares each object with what the
-- kernel has: it sends a request for each difference, or only logs it in a check. This library
-- models the parts that decide what is sent to the kernel and in which order.
--
-- Dependency.antt models LinkDependency of libifstate/util.py, its equality and its order.
-- Stages.antt models the resolver `dep` of IfState._stages in libifstate/__init__.py, which makes
-- the stages of an apply; `rounds` is its while loop, on fuel. The fuel is `size`, the number of
-- keys and dependencies of the dictionary: each round takes at least one of them away, so that it
-- is enough for every dictionary with distinct keys.
--
-- Netlink.antt is the kernel as the appliers see it: a state that is a parameter, with requests
-- that are accepted or refused. An applier of the source catches the errors of netlink and logs
-- them; another exception ends the program, and runs in which one is raised are not modelled. `Run`
-- keeps the kernel, the requests that were sent and the log. Messages of the debug log are left
-- out, and of the others only their kind and their subject are kept.
--
-- Apply.antt models IfState._apply of libifstate/__init__.py: Apply/Iface.antt the parts of an
-- interface and the condition on its vrrp setting, Apply/Vrrps.antt the vrrp settings that _update
-- collects, Apply/Orphans.antt the cleanup of links that no configuration names, Apply/Run.antt the
-- stages, the namespaces and their order. A run knows its parts by the record Applier, a function
-- on the kernel with the law that a check leaves the kernel alone; Apply/Appliers.antt fills it
-- with the modelled classes. XDP and BPF programs are only met through this record.
--
-- Update.antt models the loop of IfState._update over the interfaces of a configuration, with
-- get_defaults: the objects that a run has for an interface. What the constructors of the objects
-- raise for users, groups and addresses that are not valid is a parameter.
--
-- Neighbours.antt models the class Neighbours of libifstate/neighbour/__init__.py, and
-- Addresses.antt the class Addresses of libifstate/address/__init__.py. The functions of the
-- ipaddress module and of pyroute2 are fields of a record, and what the kernel promises is stated
-- in a record IsServed beside the theorems.
--
-- Routing.antt models libifstate/routing/__init__.py: Routing/Match.antt the comparison of objects
-- and the condition on a vrrp state, Routing/Lookup.antt the class RTLookup, Routing/Config.antt
-- the dictionaries of configured routes and of kernel routes (Tables.add, Tables.kernel_routes),
-- Routing/Tables.antt the method Tables.apply with its loop that deletes from the list it runs
-- over, Routing/Rules.antt and Routing/Rules/Apply.antt the class Rules. A dictionary with values
-- of several types is a `Fields` of Value.antt.
--
-- Fdb.antt and Fdb/Apply.antt model the class FDB of libifstate/fdb/__init__.py.
--
-- Parser.antt models the class Parser of libifstate/parser/base.py: the merge of two dictionaries
-- and _update_lo, Parser/Builtin.antt the built-in configuration and Parser/Config.antt the method
-- config. A configuration is not validated when config reads it, so that its values have any type,
-- and an exception other than the two errors of validation is one value. The values are null,
-- numbers, texts, lists and dictionaries, with True and False as 1 and 0.
--
-- Collector.antt models the class ExceptionCollector of libifstate/exception.py. A `Task` is a run
-- with its collector.
--
-- Tc.antt models the class TC of libifstate/tc/__init__.py: Tc/Handle.antt the handles as text and
-- as numbers, Tc/Tree.antt the ingress and the tree of qdiscs, Tc/Filters.antt the filters,
-- Tc/Apply.antt the method apply. The arguments of the recursive call of apply_qtree are those that
-- Python gives it.
--
-- VrrpFifo.antt models ifstate/vrrp.py: the reader of the fifo and the workers, as steps in any
-- order; an exception that is none of the modelled ones ends an apply by the parameter `crash`.
-- WireGuard.antt models the class WireGuard of libifstate/wireguard/__init__.py, Namespaces.antt
-- prepare_netns of libifstate/netns/__init__.py, and BrPort.antt the class BRPort of
-- libifstate/brport/__init__.py. Registry.antt models how a configured link finds its item in the
-- registry of links (Link.__init__ and search_link_registry of libifstate/link/base.py, get_link
-- and match of libifstate/netns/__init__.py).
--
-- Links.antt models how the class Link of libifstate/link/base.py brings a link into its
-- configuration: Links/Init.antt the link that is made of a configuration, Links/Attr.antt the
-- attributes (get_if_attr, name2nla), Links/References.antt the references to other links (depends,
-- the start of apply), Links/Move.antt the move of an item of the registry (update_netns,
-- update_ifname), Links/Create.antt, Links/Update.antt and Links/Apply.antt the methods of these
-- names, and Links/Parts.antt the settings that are handed on to Sysctl and BRPort. A block of a
-- try is a `Block`, which goes on or ends with an error of netlink, and `catch` is the handler; the
-- field `ended` of a session is set where the modelled code raises another exception, after which
-- no request is sent. Link.apply has a link that was not applied before.
--
-- Sysctl.antt models the class Sysctl of libifstate/sysctl/__init__.py over files that are a
-- parameter.
--
-- Prelude.antt holds what the parts share: lists over native numbers, sets and dictionaries as
-- lists in the order of insertion, text and numerals, and sorting by an order.
--
-- Not modelled: the printing of the state of a host (show and show_all, show_routes, show_rules),
-- which reads and does not decide; the schema, the command line and the interactive shell; the
-- inventory of the links of a host, and the sections of sysctl and BPF settings in IfState._update;
-- the ethtool settings of links, the class of veth links, and XDP and BPF programs.
pub mod Prelude
pub mod Dependency
pub mod Stages
pub mod Netlink
pub mod Neighbours
pub mod Value
pub mod Routing
pub mod Sysctl
pub mod Addresses
pub mod Fdb
pub mod Parser
pub mod Collector
pub mod Tc
pub mod Apply
pub mod VrrpFifo
pub mod WireGuard
pub mod Namespaces
pub mod BrPort
pub mod Registry
pub mod Links
pub mod Update
