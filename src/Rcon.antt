-- ===== src/Rcon.antt =====
-- src/game_control/rcon.py: the client that sends a command to the console of Minecraft.
pub mod Packets
pub mod RoundTrip
pub mod Client
pub mod Conversations
pub mod Answers
mod Examples
