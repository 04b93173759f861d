-- ===== src/Lib.antt =====
-- route-rs: the packet library of the router, route-rs-packets, the links, processors and classifiers of
-- its runtime, route-rs-runtime, the generator of routers, route-rs-graphgen, and two example routers, as
-- a model with its laws.
--
-- A packet view is a buffer of bytes with the offsets of its layers. `EthernetFrame`, `Ipv4Packet`,
-- `Ipv6Packet`, `UdpSegment`, `TcpSegment` and `ArpFrame` read and write the fields of their own layer
-- in that buffer. A view of one layer is made from the view of another on the same buffer (`TryFrom`),
-- or around a copy of its bytes (`encap_*`).
--
-- A link carries packets from its input streams to its output streams. A process link does its work
-- when its consumer polls it. The other links have ingressors, which the runtime polls and which put
-- packets into bounded channels, and egressors, which their consumers poll and which take packets out:
-- a queue link has one channel, a fork link a channel for each egressor with a copy of every packet, a
-- classify link a channel for each egressor with the packets dispatched to it, and a join link a
-- channel for each ingressor. The two sides of a channel share a task park, where a side leaves its
-- waker before it sleeps.
--
-- The generator reads a drawing, makes a graph of it, and writes the source of a router: `PipelineGraph`
-- keeps the nodes and edges and marks the classifiers; `gen_run_body` turns the nodes, in an order of the
-- graph, into links, and the links into statements that build them, each from the egressors of the links
-- before it.
--
-- Where the parts stand:
--   Packets/Types, Packets/Protocol   route-rs-packets/src/types.rs, and the structs of the views
--   Packets/Ethernet                  route-rs-packets/src/ethernet.rs
--   Packets/Ipv4 and below            route-rs-packets/src/ipv4.rs: accessors in Ipv4, the header
--                                     checksum in Ipv4/Checksum, conversions in Ipv4/Convert
--   Packets/Ipv6 and below            route-rs-packets/src/ipv6.rs: accessors in Ipv6, extension headers
--                                     in Ipv6/Extension, conversions in Ipv6/Convert
--   Packets/Udp, Packets/Tcp          route-rs-packets/src/udp.rs and tcp.rs
--   Packets/Arp                       route-rs-packets/src/arp.rs
--   Packets/Encap                     the way of a segment through the layers and back
--   Runtime/DecIpv4HopLimit, Runtime/DecIpv6HopLimit
--                                     route-rs-runtime/src/processor/dec_ip_hop.rs
--   Runtime/Crossbeam                 the interface of the package crossbeam: channels and cells
--   Runtime/TaskPark                  route-rs-runtime/src/link/utils/task_park.rs
--   Runtime/Link                      route-rs-runtime/src/link/mod.rs, and what the links share
--   Runtime/Link/Queue and below      route-rs-runtime/src/link/primitive/queue_link.rs: runs of polls in
--                                     Queue/Run and, with sleep and wakes, in Queue/Watch
--   Runtime/Link/Process, Fork, Classify, Join, Channels
--                                     process_link.rs, fork_link.rs, classify_link.rs, join_link.rs,
--                                     input_channel_link.rs and output_channel_link.rs there
--   Runtime/Composite                 route-rs-runtime/src/link/composite/mton_link.rs and
--                                     m_transform_n_link.rs
--   Runtime/DropLink                  drop_link.rs there, and route-rs-runtime/src/processor/drop.rs
--   Runtime/Classifier                route-rs-runtime/src/classifier/even.rs and fizz_buzz.rs
--   Runtime/Processors                route-rs-runtime/src/processor/identity.rs and transform_from.rs
--   Examples/StaticRouter             processors.rs and `ClassifyIP` of classifiers.rs in
--                                     examples/minimal-static-router/src
--   Examples/StaticRouter/Subnets     the subnet routers of classifiers.rs there, over the lookup table of
--                                     Examples/StaticRouter/Table
--   Examples/StaticRouter/Router      main.rs there: the builder, and the way of a frame through the links
--   Examples/DnsInterceptor           packets.rs and processors.rs in examples/dns-interceptor/src
--   Graphgen/PipelineGraph            route-rs-graphgen/src/pipeline_graph.rs: the cells of a drawing
--   Graphgen/Graph and below          `PipelineGraph` there, over the graphs of petgraph
--   Graphgen/Syn, Graphgen/Codegen    route-rs-graphgen/src/codegen.rs, and the trees that it builds
--   Graphgen/Links, Source, Generate  route-rs-graphgen/src/main.rs: the links of the nodes, the statements
--                                     of the links, and the text around them
--   Graphgen/Fed, Ordered, Scope      what links, nodes and statements satisfy, and why
--   Graphgen/Drawn                    the drawing dns-interceptor/src/pipeline.xml of the examples, for tests
--   Runtime/Link/Ports                the ports of fork and classify links
--   Common                            lists, outcomes, Boolean tests, bit masks and big-endian bytes
-- The `Layout` modules describe a header apart from the code: a record of its fields, their ranges, and
-- their bytes. The laws state what the code does to that layout. The `Tests` modules run the laws on
-- concrete packets.
--
-- Correspondence. A function keeps the source's name; `&mut self` takes the view and returns the new
-- one. An `Outcome` is `ok`, the `err` of a `Result`, or `panic`, which an index or a slice out of
-- range, a failed `unwrap` or `expect`, or an unequal `copy_from_slice` gives. The field `data` is
-- `data_bytes`, `UdpSegment::length` is `length_field`, and `frame(self)` of an ARP frame is its
-- field. The options, payloads and headers that the code copies by index in `reserve`d vectors are the
-- concatenations.
--
-- Channels, cells and wakers. The package crossbeam is not part of the repository: the links take a
-- `Crossbeam`, an interface of its operations, and the laws an `IsCrossbeam`, its documented
-- behaviour. Crossbeam/Queues is an instance over lists, for the tests. The package rand is a
-- parameter of the drop link in the same way. A channel or a cell that the code shares by `Arc` is a
-- value that an operation gives anew; the two ends of a channel and its task park are one `Port`. A
-- shared waker in a park is an address in `Memory`, which also keeps the log of the tasks that were
-- woken; a waker is the number of its task. A stream is the sequence of the answers that its polls
-- give, and is pending after the last. A processor is a function from its state and a packet; a
-- classifier and a dispatcher are functions. A poll is one step: what two threads do inside one poll
-- does not interleave. The loop of a poll is a recursion on the answers that are left, one for each
-- round, and needs no fuel.
--
-- The generator. The trees of the package syn are data with the fields that the code sets, without spans
-- and tokens; an identifier is its text. `syn::Ident::new` panics on a text that is no identifier: the
-- test is a parameter, `is_ident`, and is made where texts of the drawing become identifiers, in
-- `gen_processor_decls`. The other identifiers of the body are words of the generator with numbers behind
-- them; the module names of the arguments are not looked at. What syn parses and what quote prints are parameters, and so is `to_lowercase`. The package petgraph is an
-- interface, `Petgraph`, with its documented behaviour in `IsPetgraph`; Graph/ListGraph is an instance
-- for the tests, and Examples/StaticRouter/Table/ListTable one of the lookup table of treebitmap. The
-- reader of the package xml is the list of its events. A `HashMap` is the list of its entries, the newest
-- first. A `path` of one segment in a tree is a variable.
--
-- Bounds. A `u8`, `u16` or `u32` is a natural number whose wrap is written out, as a release build
-- computes it. A `usize` is an exact natural number: offsets and lengths stand for buffers in memory,
-- far from 2 ^ 64; the count of ingressors alive panics below 0, as a debug build does. The loops over
-- extension headers run on fuel, one more than the length of the buffer: each round moves the offset
-- forward, and a round past the end ends the loop or panics.
--
-- Not modelled: the text of `Display` and `Debug`; the log processors and the runner of
-- route-rs-runtime, which are I/O and glue over tokio; the arguments, files and calls of rustfmt of the
-- generator, and `unmagic_newlines`, a call of the package regex; the raw sockets of afpacket, which are
-- system calls; the main programs under examples, but for the links of the static router, and the
-- pipelines there that the generator wrote.
pub mod Common
pub mod Packets
pub mod Runtime
pub mod Examples
pub mod Graphgen
