-- ===== src/Tests.antt =====
-- The theorems at concrete inputs, and runs of the models.
mod LruTests
mod OspfTests
mod EcommerceTests
mod CsmaTests
mod EventsTests
mod RestaurantTests
mod ExamTests
mod BridgeTests
mod FtpTests
mod PipesTests
mod SimulationTests
mod FindPathTests
mod MenuTests
mod ProgramTests
