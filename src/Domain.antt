-- ===== src/Domain.antt =====
-- crates/core/src/domain.rs, value.rs, event.rs, engine.rs and error.rs: the program's data, with
-- the names of the child modules passed on.
mod Data
mod Config
mod Tree
mod Definition
mod Report
unfoldable pub use Data.*
unfoldable pub use Config.*
unfoldable pub use Tree.*
unfoldable pub use Definition.*
unfoldable pub use Report.*
