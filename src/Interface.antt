-- ===== src/Interface.antt =====
-- What the program takes from code that is not its own: the parser combinators of `winnow`, the
-- operating system behind `std` and `rustix`, and the submission queue of `io_uring`.
pub mod Winnow
pub mod Os
pub mod Ring
pub mod Dmi
pub mod Files
