-- ===== src/Encode.antt =====
-- lib/core/encode.c: a frame text is cut into layers, and each layer's function writes its header
-- into the frame's bytes and calls the next one. Machine has the state and the actions, Params
-- the key/value parameters, Layers and Payload one function for each layer, Table the dispatch and
-- `_encode_frame`.
pub mod Machine
pub mod Params
pub mod Layers
pub mod Inet
pub mod Payload
pub mod Table
pub mod Keeps
pub mod Packet
pub mod Carried
pub mod Stored
pub mod Total
pub mod Verified
