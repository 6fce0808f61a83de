-- ===== src/Labs/Balancer.antt =====
-- The parent process of labs/2016A7PS0064P_lab1/load_balancer.c and the signals from its children.
pub mod Parent
pub mod Turns
pub mod Credit
