-- ===== src/WadRay.antt =====
-- `ethproto.wadray`: its operations as a parameter, the laws that are relied on, and a sample that
-- meets them.
pub mod Ops
pub mod Laws
pub mod Sample
pub mod SampleLaws
pub use Ops.{WadRay, ◌*W◌, ◌/W◌, ◌*R◌, ◌/R◌}
pub use Laws.{IsWadRay}
