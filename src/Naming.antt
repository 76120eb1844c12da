-- ===== src/Naming.antt =====
-- naming/mapped_name.h, naming/indexed_name.h and naming/element_map.{h,cpp}: the names of faces,
-- edges and vertices. A std::string is the list of its bytes.
pub mod Name
pub mod Find
pub mod Extract
pub mod Trace
pub mod ElementMap
pub mod Wire
pub mod Read
pub mod RoundTrip
pub mod Primitive
