-- ===== src/Lib.antt =====
-- embedded-usbip is a USB/IP server in C for small systems: it exports virtual USB devices to a
-- client over TCP. Its parts: a byte stream FIFO (src/queue.c) that buffers what goes to a client, an
-- object pool (src/mem_pool.c) that serves allocations without malloc, a doubly linked list
-- (src/linked_list.c) that holds clients and devices and gets its nodes from such an allocator, the
-- device tree (src/usb/dev.c) with its descriptors, the virtual host controller (src/usb/vhci.c)
-- that answers control requests from the tree, and the server (src/usbip.c), which reads commands,
-- asks the host controller and pushes replies into the FIFO. A FIFO of whole messages (src/queue.c)
-- and a general heap (src/heap.c) are offered beside these.
--
-- Prelude: tests on numbers, lists by index, byte buffers with memcpy, machine words (a size_t is a
-- number modulo 2^64, an int a 32-bit pattern), and the searches of singly linked lists.
-- StreamFifo: stream_fifo_t and its functions. Pointers are offsets from the start of the buffer;
-- an access outside the buffer is none. Contents says what the fifo holds, Push, Append and
-- Refusals are about stream_fifo_push, Pop about stream_fifo_pop, RoundTrip about both, Socket about
-- stream_fifo_send_sock with send as a parameter. The theorems bound the buffer by 2^30 bytes, so
-- that no int of the code overflows; the server uses 1024.
-- MemPool: mem_pool_t and its functions over a memory of words. Blocks describes the layout and the
-- chain of free blocks, Invariant the pool's invariant, Alloc and Free its operations, Reach all
-- histories of a client, Static the pools of INIT_MEM_POOL. The theorems ask for an even address and
-- an even object size, without which the marker bit cannot be told from an address.
-- LinkedList: linked_list_t over an explicit heap of nodes; an access through NULL or to a freed
-- node is none. The iteration runs on fuel, one unit more than the list has items. Shape says what a
-- list in the heap is, Push, Find and Iter are about the functions, and Kept about what every
-- callback of an iteration keeps. Remove is about the only node of a list, Unlink and Rem about
-- removal from longer ones.
-- UsbDev: the device tree and all functions of dev.c; chains of next pointers are lists, so that one
-- node stands in one place. Add has the functions that extend a device, Lookup what the searches
-- find after them, Counters the counters of the descriptors.
-- BlockHeap: heap_t and its functions over a memory that gives the header at each address. Blocks has
-- the list of blocks and what allocation and release do to it, Objects the objects of a client, Tiled
-- how the blocks lie in the memory, Alloc and Free that the code does what the list says, Align the
-- rounded sizes, Requests what a client gets. The loops of heap_alloc run on fuel, and one unit more
-- than there are blocks is enough.
-- MsgFifo: msg_fifo_t and its functions. Pointers are addresses, and the items lie in the byte
-- buffer with their headers. Items is about the bytes of a new item, RoundTrip about a push and a
-- pop.
-- Conv: the byte order conversions of src/conv.c, without the assembly variant, for a target that
-- keeps the low byte first. Bytes is about the bytes of a number, Swap about the conversions.
-- Vhci: the host controller. Devices are reached through addresses, so that one device may stand
-- behind two pointers. Text has the texts that it prints and compares, Devices the iterations, Fold
-- and Lookup what the searches return, Register and Numbers what a registration does, History all
-- sequences of registrations. An iteration has one unit of fuel more than the list has items.
-- Urb: the requests to a device, and the host controller's answers to them. A transfer buffer is a
-- list of bytes. GetDesc and Handle are handle_get_desc and handle_urb, DevReq, DescType and Errno
-- their constants; Filling, Status and Descriptors are about the descriptors, Config about the
-- current configuration.
--
-- Usbip: what the server pushes into the fifo of a client for a device and for its interfaces
-- (usb_dev_to_buf and usb_dev_if_to_buf of src/usbip.c), for a target with ENDIAN_CONV. Pushing is
-- about pushes one behind the other, Export and Interfaces about the two functions. Commands has the
-- answers to commands (get_client_dev and handle_urb_unlink), and Answers is about them.
-- Usbip.Server: the rest of src/usbip.c. The state is the host controller, the clients in memory, the
-- list of clients, and the calls of the socket library that were made; what a call returns is a
-- function of these calls, which is a parameter. An operation changes the state or faults; a result
-- of -1 is true. Clients has the functions by which clients come and go and the server starts,
-- Replies the answers to requests, Submit the answers to commands and urb_complete_cb, Handle the
-- round of the server with usbip_client_handle. Settles says what holds when an operation either
-- succeeds or closes its socket; Accept and Listen are about usbip_accept_new_client and
-- usbip_server_setup, Dispatch and Idle about usbip_client_handle and a round, Devices and Import
-- about the two requests, Completed about urb_complete_cb, Stopping about a client whose connection
-- has failed, Submitting about handle_urb_submit. Untouched, with its children, goes through all
-- operations of the server for what they leave alone. The iteration over the clients has one unit of
-- fuel more than the list has nodes: a callback only makes the list shorter. What fill_devlist reads
-- as a fifo is the first bytes of the fifo's buffer: fifo_at makes it of them. No memory of the
-- program is taken to lie where these bytes point, so a copy through them is a fault, and a push that
-- this fifo refuses is not. Misread is about it. Samples has the data of the tests.
-- Main: the program of src/main.c, with the device that it builds. Its endless loop is any number of
-- rounds. Exported, Served and Idling are about what it exports, what clients find, and the loop while
-- nothing arrives.
--
-- Not modelled: the test programs; stop_sock and vhci_handle_dev of src/usb/vhci.c, which nothing
-- uses; the sockets and the C library, which are parameters.
pub mod Prelude
pub mod StreamFifo
pub mod MemPool
pub mod LinkedList
pub mod UsbDev
pub mod Conv
pub mod BlockHeap
pub mod MsgFifo
pub mod Urb
pub mod Vhci
pub mod Usbip
pub mod Main
