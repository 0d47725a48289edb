-- ===== src/Lib.antt =====
-- Verification library of lemola_osv2, an x86-64 hobby operating system in Rust.
--
-- Parts and files
--   Base        shared names, Boolean tests, lists over the native numbers, code that may panic with the
--               overflow checks of the debug profile, and a law of `&` with a mask of high ones.
--   Alloc       kernel-lib/src/allocator.rs: `ceil` and `align_and_boundary_to` (Alloc), with their
--               arithmetic meaning (Alloc/Ceil, Alloc/Boundary, Alloc/Place); the trait `BoundaryAlloc`
--               as an interface (Alloc/Api); the boxes and arrays made over it (Alloc/Boxes, with
--               the loop that writes an array in Filled, and Arrays over the bump allocator).
--   Alloc/Bump  kernel-lib/src/allocator/bump_allocator.rs, the kernel's global allocator, with the
--               histories of its clients as a step relation (Alloc/Bump/Heap).
--   Alloc/Fixed kernel-lib/src/allocator/fixed_length_allocator.rs, with its histories (Blocks).
--   Console     kernel-lib/src/lib.rs, the `Writer` of the text console: its buffer, cursor and the list
--               of the calls of `write_ascii`. Console/Text has the unbounded text whose last rows the
--               buffer is to hold, Console/Pictures what is drawn of it; Console/Typing, Wrapping,
--               Scroll and Strings relate the code to the two.
--   Executor    kernel/src/multitasking/executor.rs and kernel/src/multitasking/task.rs: the queue of
--               tasks (Rounds), and the future of kernel-lib/src/futures.rs that yields once. The futures of
--               the tasks are a parameter.
--   Layers      kernel-lib/src/layer.rs, the `LayerManager`: the stack of layers and the map from their
--               ids, with its histories (Layers/History), the windows it paints (Layers/Flush, Shown)
--               and the moves of a window (Layers/Moves). The pixels of a window and what `flush`
--               writes of them are in Layers/Painting, with Writes, Transparent and Opaque. Pixel has the
--               bytes of kernel-lib/src/pixel.rs.
--   Lifegame    kernel/src/lifegame.rs: the step of the board (Step, with the rule in Rule) and the
--               place of a click (Click).
--   Pci         kernel/src/pci/register.rs: the addresses of the configuration space (Pci/Address), the
--               devices read from it, and the scan of the buses (Pci/Scan), with the functions that are
--               reached from a bus (Found). The machine behind the two ports is a parameter.
--   Pci/Msi     kernel/src/pci.rs: the capabilities for messages, read and written (RoundTrip), what
--               `configure_msi` asks for (Negotiate) and its walk over the list (Chain, with what its
--               writes leave of the other capabilities in Kept). The crate `bit_field` is a parameter,
--               with the laws of its documents.
--   Render      kernel-lib/src/render.rs: rectangles and their outlines, as the list of the calls of
--               `write`, and what they leave on the screen (Painted).
--   Usb/Descriptor  kernel/src/usb/descriptor.rs: the iterator over descriptors (Blocks has the form
--               that it expects). The type codes of the crate `usb_host` are a parameter.
--   WriteTo     kernel-lib/src/write_to.rs: formatted text in a buffer of fixed size.
--   Usb/Host    kernel/src/usb/traits.rs, and the endpoints of kernel/src/usb/class_driver.rs: the host and
--               the crate `usb_host` are parameters. Ends has the rules for steps that may fail.
--   Usb/Input   kernel/src/usb/class_driver.rs, the driver of mice and keyboards: its state machine
--               (Follows, Starts), and the driver over a table of devices (Driver, Usb/Table).
--   Usb/Search  the search for an endpoint in kernel/src/usb/class_driver/mouse.rs and keyboard.rs.
--   Usb/Hub     kernel/src/usb/class_driver/hub.rs: the state machine of a hub (Follows), and its ports
--               with a hub that answers (Wired).
--   Usb/Manager kernel/src/usb/class_driver.rs: the class drivers together.
--   Usb/Index   kernel/src/usb/device.rs: endpoints and their numbers in a device context.
--   Usb/Transfer  the control transfers of kernel/src/usb/device.rs: their stages on the ring (Stages, over
--               Xhci/Ring), their result, and the retries of a request (Retries).
--   Usb/Inspect   what kernel/src/usb/device.rs looks for in the descriptors of a device.
--   Usb/Route   `next_route` of kernel/src/xhci.rs, kernel/src/xhci/user_event_ring.rs, and the request for
--               a device behind a hub of kernel/src/usb/device.rs.
--   Xhci/Trb    kernel/src/xhci/trb.rs. The crates `xhci` and `bit_field` are parameters, with the laws
--               of their getters and setters.
--   Xhci/Ring   kernel/src/xhci/transfer_ring.rs and kernel/src/xhci/command_ring.rs, the producer's side
--               of a ring. Xhci/Ring/Consumer is the controller's side after the xHCI specification, and
--               Xhci/Ring/Fifo and Xhci/Ring/Fetch show that the two make a queue.
--   Xhci/Event  kernel/src/xhci/event_ring.rs: the segment table (Segment), `pop` and the two futures,
--               over the memory that the controller writes (Waits), and polls in a row (Await).
--   Xhci/Port   kernel/src/xhci/port.rs: the phases of the ports.
--   Xhci/Controller  kernel/src/xhci/controller.rs: the reset of a port, the command for its slot, and the
--               event of a change at a port (Events). The registers are a parameter; Claims, Released
--               and Handled follow the table of the ports through a run, Hangs the lock of the registers.
--   Xhci/Devices  kernel/src/xhci/device_manager.rs: the slots of the devices and the contexts that the
--               host controller reads.
--
-- Numbers are native natural numbers. `usize` and `u64` arithmetic panics on overflow, as the debug
-- profile compiles it, which the Makefile builds by default.
--
-- Not modelled: the boot loader, the rest of the controller, the contexts of USB devices and
-- their transfers of reports, the drawing of fonts and shapes, and the code that only drives devices or prints.
-- Loops are structural recursion on the turns left; only the repeated polls (Xhci/Event/Await) and the
-- repeated calls of the descriptor iterator are bounded by a count, and their theorems name one that is
-- enough. The recursion over the bridges of PCI and the walk over a list of capabilities have fuel: 256 is
-- enough for buses whose bridges lead upwards, the length of the list for a list without a cycle. The
-- loops that wait for a register of a port have fuel too; what is shown of them holds for every fuel. A
-- request for a descriptor has more fuel than the 101 rounds that its counter allows.
pub mod Base
pub mod Alloc
pub mod Console
pub mod Executor
pub mod Layers
pub mod Lifegame
pub mod Pci
pub mod Pixel
pub mod Render
pub mod Usb
pub mod WriteTo
pub mod Xhci
