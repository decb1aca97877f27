-- ===== src/Types.antt =====
-- include/sfkg/timeseries/core/types.hpp: the data that the components exchange. `D` is `double`.
mod Values
mod Config
mod Results
pub use Values.*
pub use Config.*
pub use Results.*
