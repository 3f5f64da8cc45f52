-- ===== src/Mes.antt =====
-- The plant MES (services/mes/mes_app).
pub mod Records
pub mod Intake
pub mod Production
pub mod Numbers
pub mod WorkOrders
pub mod Logistics
pub mod Kpi
