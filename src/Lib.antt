-- ===== src/Lib.antt =====
-- os-net-config: host network configuration from a declarative file.
--
-- The command (os_net_config/cli.py) reads a YAML file, the objects of os_net_config/objects.py
-- are made from it, and a provider turns them into the files of the system and into commands.
-- This library models the program's core.
--
-- Base models what Python itself gives: `str` as a list of code points (Base/Str), `dict` as an
-- association list in insertion order (Base/Dict), `in`, `any`, `all` and comprehensions
-- (Base/Lists), `==` by an instance (Base/Equality). `upper`, `isdigit`, `strip` and the white
-- space are those of ASCII text.
--
-- Ifcfg is the ifcfg provider, os_net_config/impl_ifcfg.py. Ifcfg/Parse has `parse_ifcfg` and
-- `common.get_file_data`; a file system is a dict of texts by path, and a missing file reads as
-- the empty text, as get_file_data has it. Ifcfg/Changes has `enumerate_ifcfg_changes` and
-- `ifcfg_requires_restart`. Ifcfg/Commands has `iproute2_apply_commands`, `resolv_conf_update`,
-- `iproute2_route_commands` and `iproute2_rule_commands`; netaddr's `netmask_bits` is a
-- parameter, and what `ip` does with a command is a record of its documented behaviour, with the
-- kernel's promote_secondaries, which decides what `addr del` takes away (Ifcfg/Commands/Link).
-- Ifcfg/Routes has `_add_routes` and `_add_rules`, and Ifcfg/Routes/Read what is read back.
-- Ifcfg/Apply has the part of `IfcfgNetConfig.apply` that decides: the dicts that the `add_`
-- methods filled are the record NetConfig, the local variables the record Plan, each loop a
-- function on plans in the order of the source, and `utils.diff` the comparison with a file.
-- Python sets are lists without repetition. `child_members` recurses on fuel, which bounds the
-- nesting depth of objects; a depth above the rank of the object gives all that is below it
-- (Ifcfg/Apply/Children). The loop of `apply` over apply_routes, where its commands succeed, is
-- in Ifcfg/Apply/Crossed. An error that Python raises is `none`.
--
-- Objects is os_net_config/objects.py as far as the providers read it: the attributes of
-- `_BaseOpts` are the record BaseOpts, the class of an object with its own attributes is Kind,
-- and an object is a tree, since bridges, bonds and teams hold their members. Ifcfg/Common is
-- `_add_common` of os_net_config/impl_ifcfg.py: a line is its test, its key and its value, so
-- that the keys of a class are known without its attributes (Ifcfg/Common/Types and Tail have the
-- lines, Text the whole, Values, Keys, Static and Read what is read back, Mtu what a change of
-- the MTU does). Ifcfg/Provider has the `add_` methods and `add_object` of
-- os_net_config/__init__.py, which fill the dicts that Ifcfg/Apply reads; the MAC address of an
-- interface is a function that may fail. Ifcfg/Provider/Names has the names of the files of a
-- tree, and Ifcfg/Provider/Applied follows the objects through `apply` to the files.
-- Ifcfg/Provider/Delete has `del_object`. Cli is os_net_config/cli.py: the search for SR-IOV
-- physical functions and the two passes of `main` over the objects, where what `object_from_json`
-- gives in each pass is a list of objects that may be missing. Recursion over members is
-- structural.
--
-- Objects/Build has constructors of os_net_config/objects.py, where a record of attributes stands
-- for the arguments and a dict for what `mapped_nics` gives: Objects/Alias is about names on
-- aliases, Objects/Primary about the primary interface of Linux bridges and teams.
--
-- Ifcfg/RouteTable is `generate_route_table_config` of os_net_config/impl_ifcfg.py: which lines
-- of the file of routing tables stay and which are added (Ifcfg/RouteTable/Lines and Content),
-- how a line reads back (Words), what the lines of the result may be and why an old one may go
-- (Kinds, Merged), and a second run (Twice). `split` on white space is modelled for ASCII text.
--
-- Eni is the eni provider, os_net_config/impl_eni.py: the text of a stanza of
-- /etc/network/interfaces as its lines (Eni), the dicts of the provider, `add_object` and `apply`
-- with `execute`, `ifup`, `ifdown` and `write_config` of os_net_config/__init__.py
-- (Eni/Provider), the order of the commands (Eni/Settles) and what a second run does (Eni/Twice).
-- Eni/Read is an independent reader of stanzas, Eni/Read/Options and Eni/Read/Whole read the
-- written text back. Which commands fail and what netaddr reads from a network are parameters.
--
-- Dcb is os_net_config/dcb_config.py with the DCB map of os_net_config/common.py: the comparison
-- of a device's table of applications with the one that the user asks for (Dcb, Dcb/Tables), what
-- `apply` leaves in the kernel (Dcb/Kernel, Dcb/Settles; the kernel is a record of the documented
-- behaviour of its messages, which succeed, and nothing is known of what the programs for the
-- firmware leave in the tables), the loop that waits for a netlink answer (Dcb/Netlink), and the
-- map from PCI addresses to tables (Dcb/Map). A YAML file is the list that it holds.
--
-- Mapping is the part of os_net_config/utils.py that keeps the mapping files: the DPDK mapping
-- (Mapping/Dpdk; ethtool and /sys are a record of functions) and the SR-IOV mapping, whose
-- entries are dicts of values (Mapping), for physical functions (Mapping/Pf) and virtual ones
-- (Mapping/Vf, Mapping/Vf/Updates, Mapping/Partition, with `is_partitioned_pf` of
-- os_net_config/sriov_config.py). Each update is a function on the list that the file holds.
--
-- Sriov is os_net_config/sriov_config.py and os_net_config/sriov_bind_config.py: rule files of
-- udev (Sriov/Lines, Sriov/Udev; the only line ends are newlines), the number of functions
-- (Sriov/Numvfs, with /sys as a record of reads and writes that may fail), the wait for their
-- creation over the list of events (Sriov/Wait), the commands for their settings, with the
-- KeyError for a missing PCI address (Sriov/Vfs), and their binding to drivers (Sriov/Bind).
--
-- Nics is about the interfaces of the machine: which are real and available and their MAC
-- addresses (Nics; /sys is a record of what is read), the natural order of `_ordered_nics`
-- (Nics/Order), both of os_net_config/utils.py and os_net_config/common.py, and `mapped_nics` of
-- os_net_config/objects.py on its first call, before there is a cache (Nics/Mapped), where
-- netaddr's `valid_mac` is a function and the set of the interfaces that are left is a list in
-- any order (Nics/Distinct, Nics/Numbered).
--
-- Not modelled: logging; the start and stop of interfaces and services in `apply` of the ifcfg
-- provider; DPDK, VPP and Contrail objects; the reading of objects from JSON and the constructors
-- of the other classes; the nmstate provider; the schema validator; the netlink message layout.

pub mod Base
pub mod Cli
pub mod Dcb
pub mod Eni
pub mod Objects
pub mod Ifcfg
pub mod Mapping
pub mod Nics
pub mod Sriov
mod Tests
