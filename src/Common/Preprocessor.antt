-- ===== src/Common/Preprocessor.antt =====
-- comm_network/common/preprocessor.h and preprocessor_internal.h: the macros on argument lists,
-- tuples and sequences, as functions on what they are given. A macro that is not defined, or that
-- is given what it does not take, answers none. A sequence `(a)(b)` is the list of its elements, and
-- a tuple `(a, b)` the list of its arguments, of which `()` has one, a blank.
pub mod Variadic
pub mod Tuple
pub mod Seq
pub mod Product
