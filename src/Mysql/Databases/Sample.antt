-- ===== src/Mysql/Databases/Sample.antt =====
-- The statements of `GenerateSampleDatabase` in internal/mysql/playground.go, with each run of white
-- space as one blank. The database name goes in as it is, between backticks.
use flashaccess.Base.{Text, codes, List, [], ◌∷◌, ◌++◌}
use flashaccess.Mysql.Driver.{Statement, bare}

-- the database and the rest of one statement behind its leading words
abbrev pub template : Text → Text → Text → Text
template lead dst rest = lead ++ (codes "`" ++ (dst ++ (codes "`" ++ rest)))

unfoldable pub create_customers : Text → Text
create_customers dst = template (codes "CREATE TABLE IF NOT EXISTS ") dst (
    codes
      ".`customers` ( id INT UNSIGNED AUTO_INCREMENT PRIMARY KEY, name VARCHAR(120) NOT NULL, email VARCHAR(200) NOT NULL UNIQUE, country VARCHAR(60) NOT NULL DEFAULT 'US', created_at DATETIME NOT NULL DEFAULT CURRENT_TIMESTAMP, INDEX idx_country (country) ) ENGINE=InnoDB")

unfoldable pub create_products : Text → Text
create_products dst = template (codes "CREATE TABLE IF NOT EXISTS ") dst (
    codes
      ".`products` ( id INT UNSIGNED AUTO_INCREMENT PRIMARY KEY, sku VARCHAR(40) NOT NULL UNIQUE, name VARCHAR(200) NOT NULL, price DECIMAL(10,2) NOT NULL, stock INT UNSIGNED NOT NULL DEFAULT 0, category VARCHAR(80), INDEX idx_category (category) ) ENGINE=InnoDB")

unfoldable pub create_orders : Text → Text
create_orders dst = template (codes "CREATE TABLE IF NOT EXISTS ") dst (
    codes
      ".`orders` ( id INT UNSIGNED AUTO_INCREMENT PRIMARY KEY, customer_id INT UNSIGNED NOT NULL, status ENUM('pending','paid','shipped','cancelled') NOT NULL DEFAULT 'pending', total DECIMAL(12,2) NOT NULL, created_at DATETIME NOT NULL DEFAULT CURRENT_TIMESTAMP, CONSTRAINT fk_orders_customer FOREIGN KEY (customer_id) REFERENCES `customers` (id), INDEX idx_status (status), INDEX idx_customer (customer_id) ) ENGINE=InnoDB")

unfoldable pub create_order_items : Text → Text
create_order_items dst = template (codes "CREATE TABLE IF NOT EXISTS ") dst (
    codes
      ".`order_items` ( id INT UNSIGNED AUTO_INCREMENT PRIMARY KEY, order_id INT UNSIGNED NOT NULL, product_id INT UNSIGNED NOT NULL, qty SMALLINT UNSIGNED NOT NULL DEFAULT 1, unit_price DECIMAL(10,2) NOT NULL, CONSTRAINT fk_items_order FOREIGN KEY (order_id) REFERENCES `orders` (id), CONSTRAINT fk_items_product FOREIGN KEY (product_id) REFERENCES `products` (id), INDEX idx_order (order_id) ) ENGINE=InnoDB")

unfoldable pub fill_customers : Text → Text
fill_customers dst = template (codes "INSERT INTO ") dst (
    codes
      ".`customers` (name, email, country) VALUES('Alice Martin','alice@example.com','US'),('Bob Tanaka','bob@example.com','JP'),('Clara Dupont','clara@example.com','FR'),('David Osei','david@example.com','GH'),('Eva Rossi','eva@example.com','IT'),('Felix Bauer','felix@example.com','DE'),('Grace Liu','grace@example.com','CN'),('Hiro Yamamoto','hiro@example.com','JP')")

unfoldable pub fill_products : Text → Text
fill_products dst = template (codes "INSERT INTO ") dst (
    codes
      ".`products` (sku, name, price, stock, category) VALUES('SKU-001','Wireless Keyboard',49.99,200,'Electronics'),('SKU-002','USB-C Hub',29.95,150,'Electronics'),('SKU-003','Notebook A5',4.99,500,'Stationery'),('SKU-004','Desk Lamp',39.00,80,'Furniture'),('SKU-005','Monitor Stand',55.00,60,'Furniture'),('SKU-006','Mechanical Pencil Set',12.50,300,'Stationery'),('SKU-007','Webcam 1080p',79.99,40,'Electronics'),('SKU-008','Noise-Cancelling Headphones',149.00,25,'Electronics')")

unfoldable pub fill_orders : Text → Text
fill_orders dst = template (codes "INSERT INTO ") dst (
    codes
      ".`orders` (customer_id, status, total, created_at) VALUES(1,'paid',79.94,'2024-11-01 09:12:00'),(2,'shipped',149.00,'2024-11-03 14:22:00'),(3,'pending',4.99,'2024-11-05 08:05:00'),(1,'paid',84.99,'2024-11-10 16:30:00'),(4,'cancelled',39.00,'2024-11-12 11:00:00'),(5,'paid',229.95,'2024-11-15 19:45:00'),(6,'shipped',55.00,'2024-11-18 10:00:00'),(7,'pending',79.99,'2024-11-20 07:33:00')")

unfoldable pub fill_order_items : Text → Text
fill_order_items dst = template (codes "INSERT INTO ") dst (
    codes
      ".`order_items` (order_id, product_id, qty, unit_price) VALUES(1,1,1,49.99),(1,2,1,29.95),(2,8,1,149.00),(3,3,1,4.99),(4,7,1,79.99),(4,3,1,4.99),(5,4,1,39.00),(6,2,3,29.95),(6,5,1,55.00),(6,8,1,149.00),(7,5,1,55.00),(8,7,1,79.99)")

unfoldable pub sample_statements : Text → List Statement
unfolding create_customers create_products create_orders create_order_items fill_customers
    fill_products fill_orders fill_order_items
sample_statements dst =
    bare (create_customers dst)
    ∷ bare (create_products dst)
    ∷ bare (create_orders dst)
    ∷ bare (create_order_items dst)
    ∷ bare (fill_customers dst)
    ∷ bare (fill_products dst)
    ∷ bare (fill_orders dst)
    ∷ bare (fill_order_items dst)
    ∷ []
