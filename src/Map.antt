-- ===== src/Map.antt =====
-- sdk/src/steeleagle_sdk/api/map and the waypoints of missions: how an area becomes the points that the
-- vehicle visits.
pub mod Shapes
pub mod GeoPoints
pub mod Transects
pub mod Partition
pub mod Kml
pub mod Waypoints
mod Tests
