-- ===== src/Photo.antt =====
-- Photos on their way to the server: a node cuts a frame into packets (`node_send_pic` of
-- main/node_task.c), the root gathers them (`do_process_image_data_from_root_or_node` of
-- main/router.c) or cuts its own frame (`root_send_photo`).
pub mod Frame
pub mod Chunk
pub mod Node
pub mod Root
pub mod Gather
pub mod Transfer
mod Tests
