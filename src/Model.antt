-- ===== src/Model.antt =====
-- The data of the program (backend/app/db/models.py): the status enums, the rows of the tables,
-- the database that a session works on, and the monad of the service methods.
mod Enums
mod Rounding
mod Rows
mod Session
mod Tables
mod Runs
mod Frames
pub use Enums.*
unfoldable pub use Rounding.*
pub use Rows.*
pub use Session.*
unfoldable pub use Tables.*
pub use Runs.*
pub use Frames.*
