-- ===== src/Lib.antt =====
-- A verification library for the three programs of this repository: an IPv4 router (Tema_1), a
-- publish/subscribe broker over TCP and UDP (Tema_2), and a client of an HTTP API (Tema_3).
--
-- The router's main loop (Tema_1/router.c) looks up the next hop of a packet in a trie of routes,
-- checks and renews the IPv4 checksum, and keeps packets whose next hop is unresolved in a queue.
--   Router/Trie.antt      insert_route, rtable_to_trie, get_best_route of Tema_1/router.c. A node has
--                         the two children that the code reaches (of 256); addresses and masks are
--                         in host order, as ntohl gives them.
--   Router/Checksum.antt  checksum of Tema_1/lib/lib.c, over the bytes of the data.
--   Router/Queue.antt     Tema_1/lib/queue.c and list.c, on a heap of cells with malloc's addresses
--                         as arguments.
--   Router/Frame.antt     frames as bytes, with the fields of Tema_1/include/protocols.h.
--   Router/Arp.antt       get_arp_table_entry, and of the main loop the writes to the ARP table and
--                         the loop over the queue when an ARP reply comes in.
--   Router/Icmp.antt      icmp_send_echo_reply and icmp_send_dest_unreachable_or_timeout.
--   Router/Loop.antt      the main loop: `receive` is a round, from the frame that
--                         recv_from_any_link gives to the frames that send_to_link is called with.
--   Router/HwAddr.antt    hex2num, hex2byte and hwaddr_aton of Tema_1/lib/lib.c.
--   Router/RouteFile.antt read_rtable of Tema_1/lib/lib.c, over the text of the file.
--
-- The broker's server (Tema_2/server.c) polls its sockets and calls the tables of Tema_2/utils.c.
--   Broker/Wildcard.antt  check_topic_regexp: strtok_r's tokens and the loop over them.
--   Broker/Clients.antt   the table `clients`: the searches, add_or_reconnect_client,
--                         handle_disconnect.
--   Broker/Topics.antt    the table `topic_map`: find_topic_index, subscribe, unsubscribe.
--   Broker/Publish.antt   publish, with the sockets that send_all is called with in order.
--   Broker/Server.antt    run_chat_multi_server: a branch of the loop is a function of the state
--                         and of a World, which holds what the system calls return. poll_slot is
--                         the loop's body at an index, poll_round the `for` loop, and serve, in
--                         Server/Start.antt, the endless loop from the slots of the start on.
--   Broker/Stream.antt    send_all and recv_all of Tema_2/common.c, over what send and recv return.
--   Broker/Subscriber.antt  run_client of Tema_2/subscriber.c: messages shown and lines typed; a
--                         double is a value of a parameter type. connect_request is main's packet.
--
-- The HTTP client builds its requests and searches the responses.
--   Http/Buffer.antt      Tema_3/buffer.c.
--   Http/Requests.antt    Tema_3/requests.c, and compute_message of Tema_3/helpers.c; a request is
--                         `none` where a string does not fit in its array.
--   Http/Connection.antt  send_to_server and receive_from_server of Tema_3/helpers.c, over what
--                         write and read return.
--   Http/Numbers.antt     the int of Tema_3/client.c with "%d", strtol and scanf.
--   Http/Session.antt     the state of main in Tema_3/client.c, with actions on it that end early;
--                         Session/Actions.antt has the calls that the commands make.
--   Http/Json.antt        what the client uses of parson and of double, as records of operations.
--   Http/Commands.antt    main's loop: read_command, dispatch on the command, run; the modules below
--                         hold the commands, one function for each.
--
-- The modules below each of these hold its lemmas, the Tests modules concrete runs, and
-- Prelude.antt what all share: lists, C strings as the bytes before their NUL, searches.
--
-- Bounds: an access outside an array of the broker is an outcome of its own (`none`, `fault`,
-- `past_the_table`), with the arrays' sizes from the headers. Recursions follow the lists (for the
-- calls of send, recv and read the list of what they return); the
-- walk in the trie takes its 32 rounds as a number, and the decimal digits of n take n + 1 rounds
-- as fuel, of which one for each digit is used. The client's loop takes a number of rounds as fuel:
-- a round that reads a command takes a byte of the input, so the input's length is enough.
--
-- The client's requests have 4096 bytes, and a line of one or its body 1000. The router's buffer has
-- 1400 bytes and its ARP table 100000 entries; the packets in its queue are copies as long as their
-- frames. The loop over the three interfaces and the loop over the queue have their number of rounds
-- as an argument.
--
-- Not modelled: sockets, poll, ioctl and memory as the kernel gives them (their results are
-- arguments), parse_arp_table, which is not called, and the parson library, which the client only
-- calls.
pub mod Prelude
pub mod Broker
pub mod Router
pub mod Http
