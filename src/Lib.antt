-- ===== src/Lib.antt =====
-- The firmware of an ESP32 camera mesh: cameras on an ESP-MDF mesh, one of which is the root and talks
-- to a TCP server. This library models the firmware's own code, main/*.c and main/include/*.h.
--
-- The parts and how they interact. A node runs `node_task` (main/node_task.c): it reads one message at a
-- time from the mesh, acts on it (light, settings, photo, registration) and writes answers to the root.
-- The root runs handlers of main/router.c: for the commands of the server, for the messages of the
-- nodes and for the packets of photos, which it gathers and sends on to the server. It keeps a list of
-- the registered nodes (main/node_dev_list.c), registers them with the server, pings them, and takes
-- those off that have left the mesh. Both keep settings in a file (main/app_spiffs.c), drive a light,
-- and feed a watchdog. The root reads the commands of the server from a socket into a queue, from which
-- its loop over the mesh hands them to itself or to a node; and it fetches firmware from the server and
-- hands it to the nodes. A device whose mode is 1 is no node: it runs a web server for its camera and
-- its settings (main/app_httpd.c).
--
-- How state and operations correspond to the code.
--   Memory is a `Store`, a function from offsets to bytes (Common/Memory), with `memcpy`, `memset` and
--   stores of bytes and 16-bit little-endian words; a pointer into a buffer is an offset. The packed
--   structs of main/include/common.h are tables of offsets (Wire, a file per struct), so members of the
--   unions overlap as they do in C. Calls to the socket, the mesh, the pins and the watchdog are values
--   of `Effect`, in the order of the calls; their results are arguments (`write`, `sends`, `camera`,
--   `block` and so on). Handlers take the state and return the calls made and the new state.
--   Common            helpers; Common/Memory, Common/Lists, Common/Tests; Common/Runs: computations that
--                     may fault, and what holds of their results
--   Wire, Message     main/include/common.h, and the fields each message begins with; Wire/Layout: the
--                     packed structs, member by member, from which the offsets follow
--   Effect            the calls out of the program
--   DevList           main/node_dev_list.c: add_newnode, del_node, check_node_is_exist; DevList/Registry:
--                     what it promises, as an interface; DevList/Implements: that it keeps that
--   Photo             Photo/Node: node_send_pic of main/node_task.c; Photo/Root: root_send_photo of
--                     main/router.c; Photo/Gather: do_process_image_data_from_root_or_node; Photo/Chunk
--                     says what the packets of a photo are; Photo/Transfer joins node and root
--   Config            main/app_spiffs.c: system_config_init, get_system_config, update_system_config
--   Watchdog, Light   feed_dog, system_reboot, period_feed_dog_in_second; set_light_color
--   Node              Node/Handlers and Node/Task: the handlers and the loop of `node_task`
--   Root              Root/Command: do_process_data_from_tcpser_or_root, root_do_ota, set_work_mode;
--                     Root/Restart: root_do_restart; Root/Register: root_send_register; Root/FromNode:
--                     do_process_data_from_node; Root/Offline: root_do_child_offline; Root/Ping:
--                     root_send_ping; Root/MeshTask: root_mesh_read_task, round by round;
--                     Root/Socket: tcp_client_read_task, round by round; Root/System: these two loops
--                     over their shared state, in any interleaving, as a step relation; Root/Registry:
--                     what every handler does to the device list; Root/Relay: a command from the
--                     socket to the node and its answer back, over Root/Socket, Root/MeshTask and Node;
--                     Root/Ota: ota_task and root_ota_read_task
--   Httpd             main/app_httpd.c: Httpd/Filter: ra_filter_init, ra_filter_run; Httpd/Control:
--                     cmd_handler; Httpd/Status: status_handler; Httpd/Stream: stream_handler and
--                     capture_handler; Httpd/Decimal: %u
--   Start             app_main and event_handler of main/router.c: what a device starts as; Start/Setup:
--                     the calls by which it does: watchdog_setup, camera_setup, light_setup, wifi_init,
--                     app_main, and app_httpd_main of main/app_httpd.c
--   Events            event_loop_cb of main/router.c; Events/Departures and Events/Arrivals:
--                     what becomes of a node that leaves the mesh, and of one that joins it
--
-- Bounds and fuel. Counters of the code that have 16 or 32 bits wrap as they do there (`% 2 ^ 16`).
-- The two loops over packets take 2 ^ 16 rounds of fuel: `count` has 16 bits, so it meets the number of
-- packets within that many rounds. The loop of ota_task that reads the firmware takes as many rounds as
-- the server says that there are bytes, which is enough since each round reads at least one; that of
-- the connection takes 20. Every other loop is recursion on a list or on a number of rows.
-- Numbers of bytes are those of `sizeof` in the packed structs. CONFIG_FREERTOS_HZ is 1000, as in
-- sdkconfig, so that a tick is a millisecond.
--
-- Interleaving. In Root/System the loop over the mesh may be interrupted between the parts of a round, by
-- rounds of the loop over the socket and by the end of an update: g_sockfd, g_self_mac, the device list,
-- bDeviceOtaFlag and ServerQueue are one state. Within such a part a task runs alone. What the other
-- tasks do to MeshQueue and tcpQueue between two parts is an argument of the part.
--
-- Buffers. A `Store` has no end, and buffers and variables are apart from each other: a read or write past
-- the end of a buffer is no fault here and reaches nothing else. The type of a
-- message of the mesh (data_type) is left out of the writes.
--
-- What is not modelled: what the SDK does with the calls that set up the peripherals, the file system and
-- the network, which are values in the order of the calls; main/memmange.c, which has a function that
-- returns 0 and nothing else, and my_test_task, which is not started. components/esp32-camera and
-- components/mupgrade are libraries of Espressif: a frame, the result of an upgrade and of each call of
-- them is an argument. Logs and delays have no effect here. The conditions that end the loops of the root,
-- the loss of the mesh or of the place at its root, are the ends of the lists of rounds.
pub mod Common
pub mod Wire
pub mod DevList
pub mod Effect
pub mod Message
pub mod Photo
pub mod Config
pub mod Watchdog
pub mod Light
pub mod Node
pub mod Root
pub mod Events
pub mod Httpd
pub mod Start
