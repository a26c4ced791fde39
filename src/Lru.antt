-- ===== src/Lru.antt =====
-- NetworkProtocols/LRU.cpp: a web page cache that evicts the least recently used page.
-- `Memory` is the heap of list nodes and the two pointer surgeries, `Cache` the class LRUCache,
-- `Links` what a well-formed list is, `Spec` the cache as a list of entries, `GetRefines` and
-- `PutHolds` how the two agree, `Url` the splitting of a URL, `Fetch` the HTTP exchange, `Session`
-- a round of the loop of `main`, `Listing` what it prints of the cache, and `History` any calls
-- from the constructor on.
pub mod Memory
pub mod Cache
pub mod Links
pub mod Chain
pub mod Spec
pub mod Invariant
pub mod GetRefines
pub mod Fresh
pub mod PutRefines
pub mod PutHolds
pub mod Url
pub mod Fetch
pub mod Session
pub mod Start
pub mod Listing
pub mod Turn
pub mod History
