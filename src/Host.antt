-- ===== src/Host.antt =====
-- pkg/host/netns.go: what a host agent reads from the kernel of a node's namespace. The bytes of a
-- netlink buffer are numbers; `binary.NativeEndian` is a `ByteOrder`; int32 is its bit pattern.
mod ByteOrder
mod Netlink
mod Termination
mod RoundTrip
mod Messages
mod Qdiscs
mod Tests
unfoldable pub use ByteOrder.*
unfoldable pub use Netlink.*
