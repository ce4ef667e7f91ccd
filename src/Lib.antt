-- ===== src/Lib.antt =====
-- A model of rout5, the software of a small router, and proofs about it.
--
-- The program is a set of Go daemons and the packages that they share. dhcp/dhcp4d is the DHCPv4
-- server of the local network; its `Handler` keeps the database of leases. dhcp/dhcp4 is the DHCPv4 client
-- of the uplink, and cmd/dhcp4 the daemon around it, which stores each lease for netconfigd.
-- diag is a tree of network checks, which cmd/diagd serves as a page. multilisten keeps one listener
-- for each of the router's private addresses, for the daemons that serve there. dhcp/dhcp6 is the
-- DHCPv6 client of the uplink, and cmd/dhcp6 its daemon. netconfig configures the kernel from the
-- leases and the files of the administrator, whenever cmd/netconfigd is told to. cmd/dhcp4d stores and
-- shows the leases of the server. cmd/captured keeps the latest packets and sends them over SSH, and
-- util/oui knows the vendors of hardware addresses.
--
-- How the code is modelled. A method that changes an object is a function from the object's record
-- to the new record and the method's result, and calls are one after the other. Most methods hold
-- their mutex for their whole run; serveDHCP does not, but takes it piece by piece, so that a
-- SetHostname of the web page in another goroutine can come in between. Dhcp4d/Serve takes one DHCP
-- message as one step. Go's maps are association lists with each key once (Base/Maps), strings and
-- byte slices are lists of numbers, and a time is a count of nanoseconds since Go's zero time, so
-- `IsZero` is a test for 0. Each reading of the clock and each random number is an argument. A
-- failing call returns its error as a value; a run-time panic is one of the results.
--
-- Net, Hex and Sort hold what the code uses of Go's net, encoding/hex, sort and bytes packages.
--
-- dhcp/dhcp4d/dhcp4d.go:
--   Dhcp4d/Handler: `Lease`, `Handler`, NewHandler, SetLeases, callLeasesLocked, SetHostname,
--   findLease, canLease, leaseHW, expireLease. The callback `Leases` is recorded in `published`.
--   Dhcp4d/Serve: serveDHCP and ServeDHCP. github.com/krolaw/dhcp4 is the parameter `DhcpLibrary`; a
--   reply is the record of the arguments of ReplyPacket, and the frame holds the fields that
--   ServeDHCP sets. A lease is a value in the map: the code's pointers to it are shared only with
--   the receivers of the callback.
--   Dhcp4d/Quirks: leasePeriodForDevice and the table of dhcp/dhcp4d/quirks.go. The binary search
--   runs on fuel, as many rounds as the table has entries, which Sort/Search shows to be enough.
--   The other files under Dhcp4d prove: Invariant and Preserve (the two maps agree), Replace (the
--   database after an acknowledgement), Availability (canLease and findLease), Serving, Exchange,
--   Offer, Renewal and Restore.
--
-- dhcp/dhcp4/dhcp4.go and cmd/dhcp4/dhcp4.go:
--   Dhcp4/Client: `Client`, the function of c.once.Do, ObtainOrRenew, Release and dhcpRequest. A call
--   takes the `Network` that it meets: the errors of its system calls, and the packets that arrive
--   before each deadline. github.com/rtr7/dhcp4 is the parameter `DhcpLibrary`. c.err is read
--   after a call only, so that its reset before dhcpRequest is seen in the result alone.
--   Dhcp4/Daemon: the two loops of logic; the inner one runs over the events that its select meets.
--   Dhcp4/Logic: logic from its start over as many turns of its outer loop as are given; `Host` is what
--   the start reads, interfaces.json through Netconfig/Interfaces. The backoff's length is left out.
--   Dhcp4/Healthy: healthy, over the response that it gets, and its agreement with cmd/diagd.
--   Dhcp4/FirstAck, Acquire, Persist, Rounds, Health and Ending prove what the calls and the loops do.
--
-- cmd/dhcp4d/dhcp4d.go and cmd/dhcp4d/http.go:
--   LeaseServer/Store: the callback Leases with updateNonExpired, and the messages and renamings that
--   lead to it. The leases that the daemon keeps are the handler's own objects, so they are numbers.
--   LeaseServer/Web: handleHome, handleSetHostname (with the handler of newSrv) and the page /lease/.
--   A page reads the clock once; sort.Slice is a parameter, of which Sort/Slice states what it promises
--   (its order only for a strict weak order, which the comparison by Expiry is not), with an instance; the
--   texts of errors of
--   other packages are left out. The setup in newSrv, the template's text and run are not modelled.
--   LeaseServer/Stored, LeaseServer/Rows and LeaseServer/Listed are proofs.
--
-- diag/diag.go and cmd/diagd/diagd.go:
--   Diag/Monitor: the tree, `Then`, evaluate, firstError and dump. A node carries what its Evaluate
--   returns when it is called. Diag/Cause, Diag/Dependency, Diag/Page and Diag/Clean are proofs.
--   Diag/Checks (diag/ping.go, ra6.go, tcp.go, link.go, dhcp.go, ipv6.go): String and Evaluate of each
--   kind of node. Sockets, netlink, the lease file and the clock are Diag/Surroundings, which
--   does not change in a run; timeouts are in what a ping answers.
--   Diag/Health: the tree of logic and the handler of /health.json, which Dhcp4/Healthy asks. The other
--   parts of the HTTP server are not modelled.
-- multilisten/multilisten.go:
--   Multilisten/Pool: `Pool`, ListenAndServe and the end of its goroutines, which hold the mutex and so
--   are steps of a relation. A listener is the number of the call of listenerFor that made it. Go
--   visits `vanished` in no fixed order; here it is that of the list.
--   Multilisten/Hosts, Close, Serving, Trace and Lost are proofs.
--
-- dhcp/dhcp6/dhcp6.go:
--   Dhcp6/Client: sendReceive, solicit, request, ObtainOrRenew and Release. An exchange takes the
--   `Network` that it meets. github.com/insomniacslk/dhcp is the parameter `DhcpLibrary`, for one
--   client's hardware address and DUID. Dhcp6/Exchange and Dhcp6/Renew are proofs.
--   Dhcp6/Setup: NewClient, over the calls of `Host`; a connection is named by its local address.
-- cmd/dhcp6/dhcp6.go:
--   Dhcp6/Daemon: logic over as many turns of its loop as are given, without the backoff's length.
--   Dhcp6/Stores is a proof.
-- netconfig/netconfig.go:
--   Strconv: strconv.ParseUint with base 0.
--   Netconfig/Port, Forward and Firewall: parsePort, portForwardExpr, applyPortForwardings,
--   getCounterObj and applyFirewall. A batch is the list of commands that Flush sends; net.ParseIP and
--   what GetObj returns are inputs, and a file is given as it is read and decoded.
--   Netconfig/Nft is the meaning of the expressions by the documentation of nftables, for the proofs in
--   Netconfig/Rule, Forwarding and Ruleset; Netconfig/Decimal is about parsePort.
--   Netconfig/Links, Bridges and Interfaces: the kernel's links as a state, applyBridges,
--   applyInterfaces, Interface and LinkAddress. Every netlink call may fail, and then changes nothing;
--   a failing removal of resolv.conf is the failure of the call that writes it. Which
--   calls fail depends on the call alone, so that the same call always fails or always succeeds within one
--   Apply. A bridge takes the hardware address of its first port, as the code's comment says, and does
--   not follow a later change of that. `up` stands for the operational state and LinkSetUp for a link with
--   a carrier; that the kernel drops routes or secondary addresses with an address is not modelled.
--   Netconfig/Moves, Stages and Configured are proofs.
--   Netmask and Strings: net.IPMask, strings and fmt, as far as they are used.
--   Netconfig/Lease: subnetMaskSize, applyDhcp4 and applyDhcp6. A route stands for its destination, since
--   the code sets no metric; netlink.ParseAddr, net.ParseIP and the text of a network are parameters.
--   Netconfig/Subnet, Reroutes, Addrs, Replaced, Leased and Delegated are proofs.
--   Netconfig/Apply: Apply, uplinkInterface and applySysctl, over the one state of Netconfig/Links. The
--   errors of calls that only read are in `Reads`; a signal that cannot be sent changes nothing.
--   Netconfig/Quiet, Sysctls, Filtering and Applied are proofs.
-- netconfig/wireguard.go:
--   Netconfig/WireGuard: applyWireGuard. Its decoders are the parameter `WireguardLibrary`; that the
--   link is there already is the one error of LinkAdd that is passed over. Netconfig/Tunnels is a proof.
-- cmd/captured/captured.go:
--   Captured/Buffer: packetRingBuffer, with a ring as the list of its slots; Captured/Latest is a proof.
-- cmd/captured/ssh.go:
--   Captured/Session: handleChannel and session.request, with the loop of capturePackets. `Outside` says
--   which writes to the channel and which steps of a capture fail, and which packets come while a session
--   streams; such a request does not end by itself, since nothing closes the channel of packets. The
--   host key, the handshake and the listener are not modelled. Captured/Replay and Captured/Refusal are
--   proofs.
-- util/oui/oui.go:
--   Oui/Database: `DB`, load, setErr, Lookup and update. A file is the list of the records that
--   encoding/csv reads, and a download is the response to its request with the errors of its steps; the
--   times that Chtimes sets are left out. Oui/Blocks and Oui/Lookup are proofs.
-- networking/netinfo.go:
--   Networking: isPrivate and interfaceAddrs over the list that net.Interfaces returns; the tests of
--   net.IP are the parameter `IpLibrary`, and an address is given as ParseCIDR reads it.
--   Networking/Scope is a proof.
-- cmd/netconfigd/netconfigd.go:
--   Netconfig/Daemon: logic over as many signals as are given. Netconfig/Waiting is a proof.
--   Netconfig/Counters: updateCounter of init, with the wrap-around of its 64-bit sums, and the functions
--   of the two counters, over the conversion to float64, which is a parameter.
-- cmd/netconfigd, cmd/dhcp4d, cmd/diagd and cmd/captured:
--   Listeners: updateListeners, which hands the private addresses to the pool, and IPv6Net1 of
--   multilisten. Listeners/Hosts and Listeners/Private are proofs.
-- config/config.go:
--   Config: argParse. Whether a file can be opened is a parameter; its settings are not modelled.
-- config/defaults.go:
--   Config/Settings: setDefaults, processOpts and associateExportedVariables, over github.com/spf13/viper.
--
-- Not modelled, beyond what is said above: db, which only calls a library, the sockets and ioctls of
-- networking, ipc, logging and the test programs.
pub mod Base
pub mod Net
pub mod Strconv
pub mod Netmask
pub mod Strings
pub mod Hex
pub mod Sort
pub mod Dhcp4d
pub mod LeaseServer
pub mod Dhcp4
pub mod Dhcp6
pub mod Diag
pub mod Multilisten
pub mod Netconfig
pub mod Captured
pub mod Oui
pub mod Networking
pub mod Config
pub mod Listeners
mod Tests
