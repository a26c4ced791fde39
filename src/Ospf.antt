-- ===== src/Ospf.antt =====
-- NetworkProtocols/OSPF.cpp: routers with weighted links, the routing table of each by Dijkstra's
-- algorithm, and the menu that creates and deletes routers and follows the tables.
pub mod Router
pub mod Dijkstra
pub mod Table
pub mod Manage
pub mod FindPath
pub mod Menu
