-- ===== src/Models.antt =====
-- models.py: the enumerations and the tables' rows.
mod Enums
mod Values
mod Rows
pub use Enums.*
unfoldable pub use Enums.{is_open}
pub use Values.{
  Value, Items, Fields, Mapping, null, boolean, integer, text, uuid, array, object, nil, cons, end,
  field, optional_text, optional_uuid,
}
unfoldable pub use Values.{entry, py_int}
pub use Rows.*
